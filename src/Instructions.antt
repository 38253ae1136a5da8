-- ===== src/Instructions.antt =====
-- program/src/instructions: the program's eight instructions, a module for each.
pub mod Accounts
pub mod Authority
pub mod CreateMultisig
pub mod SetOwners
pub mod ChangeThreshold
pub mod SetOwnersAndChangeThreshold
pub mod ProposeTransaction
pub mod ApproveTransaction
pub mod ExecuteTransaction
pub mod CancelTransaction
