-- ===== src/Instructions/ExecuteTransaction.antt =====
-- program/src/instructions/execute_transaction.rs
pub mod Approvals
pub mod Validated
pub mod Executed
pub mod Refused
use multisig_native.Base.{
  ℕ, ◌%◌, ◌^◌, Bool, true, List, [], ◌∷◌, map, contains, not, leb, ◌==◌, ◌&&◌, if◌then◌else◌, suc,
}
use multisig_native.Errors.{
  Result, ok, ◌>>=◌, ◌>>◌, account_owned_by_wrong_program, invalid_executor,
  invalid_owner_set_sequence_number, immutable_transaction_account, invalid_transaction_account,
  invalid_refundee_account, immutable_refundee_account, not_enough_signers, multisig_error_into,
  assert_that,
}
use multisig_native.Sdk.{Pubkey, AccountInfo, AccountMeta, Instruction, Seeds, Store, Runtime}
use multisig_native.State.MultisigAccount.{Multisig}
use multisig_native.State.MultisigAccount
use multisig_native.State.InstructionData.{TransactionInstructionData, instruction}
use multisig_native.State.TransactionAccount.{Transaction}
use multisig_native.State.TransactionAccount
use multisig_native.Common.{close_account, validate_pda}
use multisig_native.Instructions.Accounts.{accounts5}

pub record ValidatedAccounts : Type 0 where
  pub multisig_account : AccountInfo
  pub multisig_signer : AccountInfo
  pub transaction_account : AccountInfo
  pub refundee : AccountInfo
  pub multisig : Multisig
  pub transaction : Transaction

-- `signers.iter().filter(|&did_sign| *did_sign).count()`
unfoldable pub count_signed : List Bool → ℕ
count_signed [] = 0
count_signed (did_sign ∷ signers) =
    if did_sign then suc (count_signed signers) else count_signed signers

-- The closure on an instruction's accounts: the multisig's own address is made a signer.
unfoldable pub sign_meta : Pubkey → AccountMeta → AccountMeta
sign_meta signer_key acc = if acc.pubkey == signer_key then record acc { is_signer = true } else acc

module _ (rt : Runtime) where
  unfoldable pub validate : Pubkey → List AccountInfo → Store → Result ValidatedAccounts
  validate program_id accounts s =
      accounts5 rt accounts
        λ multisig_account multisig_signer transaction_account refundee executor. do
          assert_that (program_id == (s multisig_account.key).owner) account_owned_by_wrong_program
          assert_that (program_id == (s transaction_account.key).owner)
              account_owned_by_wrong_program
          multisig ← MultisigAccount.checked_deserialize rt.borsh (s multisig_account.key).bytes
          transaction ←
              TransactionAccount.checked_deserialize rt.borsh (s transaction_account.key).bytes
          assert_that (executor.is_signer && contains multisig.owners executor.key) invalid_executor
          assert_that (multisig.owner_set_seqno == transaction.owner_set_seqno)
              invalid_owner_set_sequence_number
          validate_pda rt multisig_signer multisig_account multisig.nonce
              (s multisig_account.key).owner
          assert_that transaction_account.is_writable immutable_transaction_account
          assert_that (transaction.multisig == multisig_account.key) invalid_transaction_account
          assert_that (not (refundee.key == transaction_account.key)) invalid_refundee_account
          assert_that refundee.is_writable immutable_refundee_account
          let approval_count = count_signed transaction.signers % 2 ^ 8
          assert_that (leb multisig.threshold approval_count) not_enough_signers
          ok (record {
            multisig_account = multisig_account;
            multisig_signer = multisig_signer;
            transaction_account = transaction_account;
            refundee = refundee;
            multisig = multisig;
            transaction = transaction;
          })

  -- The instruction that is invoked for a stored one.
  unfoldable pub signed_instruction : Pubkey → TransactionInstructionData → Instruction
  unfolding instruction
  signed_instruction signer_key data_of =
      let ix = instruction rt data_of in
      record ix { accounts = map (sign_meta signer_key) ix.accounts }

  -- The iterator is lazy, and collecting it stops at the first error.
  unfoldable pub invoke_all :
      Pubkey → Seeds → List AccountInfo → List TransactionInstructionData → Store → Result Store
  invoke_all signer_key seeds accounts [] s = ok s
  invoke_all signer_key seeds accounts (ix ∷ ixs) s =
      rt.invoke_signed (signed_instruction signer_key ix) accounts seeds s >>= λ t.
      invoke_all signer_key seeds accounts ixs t

  unfoldable pub execute_transaction : Pubkey → List AccountInfo → Store → Result Store
  execute_transaction program_id accounts s = do
    validated ← validate program_id accounts s
    let signer_seeds : Seeds = record {
      address = validated.multisig_account.key;
      nonce = validated.multisig.nonce;
    }
    t ←
        invoke_all validated.multisig_signer.key signer_seeds accounts
          validated.transaction.instructions s
    close_account rt validated.transaction_account validated.refundee t
