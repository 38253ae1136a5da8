-- ===== src/Instructions/CancelTransaction.antt =====
-- program/src/instructions/cancel_transaction.rs
pub mod Cancelled
pub mod Refused
use multisig_native.Base.{List, contains, not, leb, ◌==◌, ◌&&◌}
use multisig_native.Errors.{
  Result, ◌>>=◌, ◌>>◌, ProgramResult, account_owned_by_wrong_program, invalid_executor,
  invalid_owner_set_sequence_number, immutable_transaction_account, invalid_transaction_account,
  invalid_refundee_account, immutable_refundee_account, multisig_error_into, assert_that,
}
use multisig_native.Sdk.{Pubkey, AccountInfo, Store, Runtime}
use multisig_native.State.MultisigAccount
use multisig_native.State.TransactionAccount
use multisig_native.Common.{close_account}
use multisig_native.Instructions.Accounts.{accounts4}

module _ (rt : Runtime) where
  unfoldable pub validate :
      Pubkey → AccountInfo → AccountInfo → AccountInfo → AccountInfo → Store → ProgramResult
  validate program_id multisig_account transaction_account refundee executor s = do
    assert_that (program_id == (s multisig_account.key).owner) account_owned_by_wrong_program
    assert_that (program_id == (s transaction_account.key).owner) account_owned_by_wrong_program
    multisig ← MultisigAccount.checked_deserialize rt.borsh (s multisig_account.key).bytes
    transaction ← TransactionAccount.checked_deserialize rt.borsh (s transaction_account.key).bytes
    assert_that (executor.is_signer && contains multisig.owners executor.key) invalid_executor
    assert_that (leb transaction.owner_set_seqno multisig.owner_set_seqno)
        invalid_owner_set_sequence_number
    assert_that (transaction.multisig == multisig_account.key) invalid_transaction_account
    assert_that transaction_account.is_writable immutable_transaction_account
    assert_that (not (refundee.key == transaction_account.key)) invalid_refundee_account
    assert_that refundee.is_writable immutable_refundee_account

  unfoldable pub cancel_transaction : Pubkey → List AccountInfo → Store → Result Store
  cancel_transaction program_id accounts s =
      accounts4 rt accounts λ multisig_account transaction_account refundee executor. do
        validate program_id multisig_account transaction_account refundee executor s
        close_account rt transaction_account refundee s
