-- ===== src/Instructions/ProposeTransaction.antt =====
-- program/src/instructions/propose_transaction.rs; the types of the proposed instructions are
-- in `State.InstructionData`.
pub mod Proposed
pub mod Success
pub mod Refused
use multisig_native.Base.{
  Bool, true, false, not, List, [], ◌∷◌, length, replicate, is_empty, position, ◌==◌,
}
use multisig_native.Errors.{
  Result, ◌>>=◌, ◌>>◌, ProgramResult, incorrect_program_id, account_owned_by_wrong_program,
  proposer_not_signer, missing_instructions, invalid_owner, multisig_error_into, program_error_into,
  assert_that, assert_present, set_item,
}
use multisig_native.Sdk.{Pubkey, AccountInfo, Store, Runtime}
use multisig_native.State.MultisigAccount.{Multisig}
use multisig_native.State.MultisigAccount
use multisig_native.State.InstructionData.{TransactionInstructionData}
use multisig_native.State.TransactionAccount.{Transaction, len}
use multisig_native.State.Save.{store_transaction}
use multisig_native.Instructions.Accounts.{accounts5}

pub record ProposeTransactionInstruction : Type 0 where
  pub instructions : List TransactionInstructionData

-- The transaction that is stored, with the given votes.
abbrev pub transaction : Pubkey → Multisig → ProposeTransactionInstruction → List Bool → Transaction
transaction multisig_key multisig instruction signers = record {
  multisig = multisig_key;
  instructions = instruction.instructions;
  signers = signers;
  owner_set_seqno = multisig.owner_set_seqno;
}

module _ (rt : Runtime) where
  unfoldable pub validate :
      Pubkey
      → AccountInfo
      → AccountInfo
      → AccountInfo
      → ProposeTransactionInstruction
      → Store
      → ProgramResult
  validate program_id multisig_account proposer system_program instruction s = do
    assert_that (program_id == (s multisig_account.key).owner) account_owned_by_wrong_program
    assert_that (system_program.key == rt.system_program) incorrect_program_id
    assert_that proposer.is_signer proposer_not_signer
    assert_that (not (is_empty instruction.instructions)) missing_instructions

  unfoldable pub propose_transaction :
      Pubkey → List AccountInfo → ProposeTransactionInstruction → Store → Result Store
  propose_transaction program_id accounts instruction s =
      accounts5 rt accounts λ multisig_account transaction_account proposer payer system_program. do
        validate program_id multisig_account proposer system_program instruction s
        multisig ← MultisigAccount.checked_deserialize rt.borsh (s multisig_account.key).bytes
        owner_index ← assert_present (position multisig.owners proposer.key) invalid_owner
        signers ← set_item (replicate (length multisig.owners) false) owner_index true
        let transaction_data = transaction multisig_account.key multisig instruction signers
        minimum_balance ← rt.rent_get
        created ←
            rt.invoke
              (rt.create_account payer.key transaction_account.key
                (minimum_balance (len transaction_data)) (len transaction_data) program_id)
              (payer ∷ transaction_account ∷ system_program ∷ []) s
        store_transaction rt transaction_account transaction_data created
