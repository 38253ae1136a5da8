-- ===== src/Instructions/ChangeThreshold.antt =====
-- program/src/instructions/change_threshold.rs
pub mod Changed
pub mod Refused
use multisig_native.Base.{ℕ, List, ◌==◌}
use multisig_native.Errors.{
  Result, ok, ◌>>=◌, ◌>>◌, account_owned_by_wrong_program, multisig_error_into, assert_that,
}
use multisig_native.Sdk.{Pubkey, AccountInfo, Store, Runtime}
use multisig_native.State.MultisigAccount.{checked_deserialize}
use multisig_native.Common.{validate_signer, validate_threshold, execute_change_threshold}
use multisig_native.Instructions.Accounts.{accounts2}

pub record ChangeThresholdInstruction : Type 0 where
  pub threshold : ℕ

unfoldable pub change_threshold :
    Runtime → Pubkey → List AccountInfo → ChangeThresholdInstruction → Store → Result Store
change_threshold rt program_id accounts instruction s =
    accounts2 rt accounts λ multisig_account multisig_signer. do
      multisig_data ← checked_deserialize rt.borsh (s multisig_account.key).bytes
      assert_that (program_id == (s multisig_account.key).owner) account_owned_by_wrong_program
      validate_signer rt multisig_signer multisig_account multisig_data program_id
      validate_threshold instruction.threshold multisig_data.owners
      (_, t) ← execute_change_threshold rt multisig_account multisig_data instruction.threshold s
      ok t
