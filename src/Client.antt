-- ===== src/Client.antt =====
-- ts: the TypeScript client, which makes the program's instructions and reads its accounts.
pub mod Js
pub mod Packages
pub mod Discriminator
pub mod Instructions
pub mod Encoded
pub mod Values
pub mod State
pub mod Dsl
pub mod Requests
pub mod Written
pub mod Processed
