-- ===== src/Instructions/SetOwners.antt =====
-- program/src/instructions/set_owners.rs
pub mod Changed
pub mod Refused
use multisig_native.Base.{List, ◌==◌}
use multisig_native.Errors.{
  Result, ok, ◌>>=◌, ◌>>◌, account_owned_by_wrong_program, multisig_error_into, assert_that,
}
use multisig_native.Sdk.{Pubkey, AccountInfo, Store, Runtime}
use multisig_native.State.MultisigAccount.{checked_deserialize}
use multisig_native.Common.{validate_signer, validate_owners, execute_set_owners}
use multisig_native.Instructions.Accounts.{accounts2}

pub record SetOwnersInstruction : Type 0 where
  pub owners : List Pubkey

unfoldable pub set_owners :
    Runtime → Pubkey → List AccountInfo → SetOwnersInstruction → Store → Result Store
set_owners rt program_id accounts instruction s =
    accounts2 rt accounts λ multisig_account multisig_signer. do
      multisig_data ← checked_deserialize rt.borsh (s multisig_account.key).bytes
      assert_that (program_id == (s multisig_account.key).owner) account_owned_by_wrong_program
      validate_signer rt multisig_signer multisig_account multisig_data program_id
      validate_owners multisig_data instruction.owners
      (_, t) ← execute_set_owners rt multisig_account multisig_data instruction.owners s
      ok t
