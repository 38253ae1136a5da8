-- ===== src/Instructions/ApproveTransaction.antt =====
-- program/src/instructions/approve_transaction.rs
pub mod Approved
pub mod Refused
use multisig_native.Base.{true, List, position, ◌==◌}
use multisig_native.Errors.{
  Result, ◌>>=◌, ◌>>◌, ProgramResult, account_owned_by_wrong_program,
  invalid_owner_set_sequence_number, approver_not_signer, immutable_transaction_account,
  invalid_transaction_account, invalid_owner, multisig_error_into, assert_that, assert_present,
  set_item,
}
use multisig_native.Sdk.{Pubkey, AccountInfo, Store, Runtime}
use multisig_native.State.MultisigAccount.{Multisig}
use multisig_native.State.MultisigAccount
use multisig_native.State.TransactionAccount.{Transaction}
use multisig_native.State.TransactionAccount
use multisig_native.State.Save.{store_transaction}
use multisig_native.Instructions.Accounts.{accounts3}

unfoldable pub validate :
    Pubkey
    → Multisig
    → Transaction
    → AccountInfo
    → AccountInfo
    → AccountInfo
    → Store
    → ProgramResult
validate program_id multisig transaction approver transaction_account multisig_account s = do
  assert_that (program_id == (s multisig_account.key).owner) account_owned_by_wrong_program
  assert_that (program_id == (s transaction_account.key).owner) account_owned_by_wrong_program
  assert_that (multisig.owner_set_seqno == transaction.owner_set_seqno)
      invalid_owner_set_sequence_number
  assert_that approver.is_signer approver_not_signer
  assert_that transaction_account.is_writable immutable_transaction_account
  assert_that (transaction.multisig == multisig_account.key) invalid_transaction_account

unfoldable pub approve_transaction : Runtime → Pubkey → List AccountInfo → Store → Result Store
approve_transaction rt program_id accounts s =
    accounts3 rt accounts λ multisig_account transaction_account approver. do
      multisig ← MultisigAccount.checked_deserialize rt.borsh (s multisig_account.key).bytes
      transaction ←
          TransactionAccount.checked_deserialize rt.borsh (s transaction_account.key).bytes
      validate program_id multisig transaction approver transaction_account multisig_account s
      owner_index ← assert_present (position multisig.owners approver.key) invalid_owner
      signers ← set_item transaction.signers owner_index true
      store_transaction rt transaction_account (record transaction { signers = signers }) s
