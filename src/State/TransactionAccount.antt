-- ===== src/State/TransactionAccount.antt =====
-- program/src/state/transaction.rs
use multisig_native.Base.{ℕ, ◌+◌, ◌≡◌, refl, Bool, List, length, sum_of, sum_of-const, arith}
use multisig_native.Errors.{
  Result, assert_success, malformed_transaction_account, multisig_error_into,
}
use multisig_native.Sdk.{Encoding, both, struct, restate, Borsh, IsU32, IsKey, IsVec, Pubkey}
use multisig_native.State.InstructionData.{
  TransactionInstructionData, IsInstructionData, instruction_data_codec,
}
use multisig_native.State.InstructionData

pub record Transaction : Type 0 where
  -- The multisig account this transaction belongs to.
  pub multisig : Pubkey
  -- The instructions to be executed by this transaction.
  pub instructions : List TransactionInstructionData
  -- Item `i` is true exactly if owner `i` of the multisig signed the transaction.
  pub signers : List Bool
  -- Owner set sequence number.
  pub owner_set_seqno : ℕ

-- `Transaction::len`; the data of an account is far too short for this to wrap around.
unfoldable pub len : Transaction → ℕ
len t = 32 + 4 + sum_of InstructionData.len t.instructions + 4 + length t.signers + 4

-- The fields hold values of their types.
pub record IsTransaction (t : Transaction) : Type 0 where
  pub multisig_fits : IsKey t.multisig
  pub instructions_fit : IsVec IsInstructionData t.instructions
  pub signers_fit : IsVec (λ _. Unit {0}) t.signers
  pub seqno_fits : IsU32 t.owner_set_seqno

-- The fields in their order, as `BorshSerialize` and `BorshDeserialize` are derived from them.
abbrev Fields : Type 0
Fields = Pubkey × (List TransactionInstructionData × (List Bool × ℕ))

abbrev of_fields : Fields → Transaction
of_fields (multisig, (instructions, (signers, owner_set_seqno))) = record {
  multisig = multisig;
  instructions = instructions;
  signers = signers;
  owner_set_seqno = owner_set_seqno;
}

abbrev to_fields : Transaction → Fields
to_fields t = (t.multisig, (t.instructions, (t.signers, t.owner_set_seqno)))

module _ (b : Borsh) where
  fields_size :
      (t : Transaction)
      → 32
          + ((4 + sum_of InstructionData.len t.instructions)
              + ((4 + sum_of (λ _. 1) t.signers) + 4))
        ≡ len t
  unfolding len
  fields_size t = omega (arith, sum_of-const 1 t.signers)

  unfoldable pub transaction_codec : Encoding IsTransaction len
  unfolding fields_size
  transaction_codec =
      restate
        (λ t h. record {
          multisig_fits = h.0;
          instructions_fit = h.1.0;
          signers_fit = h.1.1.0;
          seqno_fits = h.1.1.1;
        })
        (λ t h. (h.multisig_fits, (h.instructions_fit, (h.signers_fit, h.seqno_fits)))) fields_size
        (struct of_fields to_fields (λ t. refl) (λ t. refl)
          (both b.pubkey (both (b.vec (instruction_data_codec b)) (both (b.vec b.bool) b.u32))))

  -- `Transaction::checked_deserialize`
  unfoldable pub checked_deserialize : List ℕ → Result Transaction
  unfolding transaction_codec
  checked_deserialize bytes =
      assert_success (b.try_from_slice transaction_codec bytes) malformed_transaction_account
