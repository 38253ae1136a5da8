-- ===== src/State.antt =====
-- program/src/state: the data of the program's two kinds of account, with the instructions that
-- a transaction carries.
pub mod MultisigAccount
pub mod InstructionData
pub mod TransactionAccount
pub mod Stored
pub mod Layout
pub mod Save
pub mod Saved
pub mod Reads
pub mod Confusion
