-- ===== src/Client/Instructions.antt =====
-- ts/instructions/index.ts: the discriminators, and the functions that make an instruction each.
pub mod Owners
pub mod Proposals
unfoldable pub use Owners.*
unfoldable pub use Proposals.*
