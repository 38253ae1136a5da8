-- ===== src/Sdk.antt =====
-- What the program takes from the crates it is built on, none of which is code of the
-- repository: `Codec` and `Format` (crate borsh), `Accounts` (the accounts of solana_program)
-- and `Calls` (the other calls of the SDK, with their documented behaviour as laws).
mod Codec
mod Enum
mod Format
mod Accounts
mod Calls
pub mod Slices
pub mod Bytes
pub use Codec.*
pub use Enum.*
unfoldable pub use Format.*
unfoldable pub use Accounts.*
pub use Calls.*
