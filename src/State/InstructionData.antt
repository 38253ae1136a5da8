-- ===== src/State/InstructionData.antt =====
-- program/src/instructions/propose_transaction.rs: the instructions that a transaction carries.
use multisig_native.Base.{
  ℕ, ◌+◌, ◌*◌, ◌≡◌, refl, Bool, true, false, List, map, length, sum_of, sum_of-const, arith,
}
use multisig_native.Sdk.{
  Encoding, both, struct, restate, Borsh, IsU8, IsKey, IsVec, Pubkey, AccountMeta, Instruction,
  Runtime,
}

pub record TransactionInstructionAccount : Type 0 where
  pub pubkey : Pubkey
  pub is_signer : Bool
  pub is_writable : Bool

-- The source's field `data` is `bytes` here.
pub record TransactionInstructionData : Type 0 where
  pub program_id : Pubkey
  pub accounts : List TransactionInstructionAccount
  pub bytes : List ℕ

-- `TransactionInstructionData::len`
unfoldable pub len : TransactionInstructionData → ℕ
len ix = 32 + 4 + (32 + 1 + 1) * length ix.accounts + 4 + length ix.bytes

-- `impl From<&TransactionInstructionAccount> for AccountMeta`
module _ (rt : Runtime) where
  meta_by : Bool → Pubkey → Bool → AccountMeta
  meta_by false pubkey is_signer = rt.meta_new_readonly pubkey is_signer
  meta_by true pubkey is_signer = rt.meta_new pubkey is_signer

  unfoldable pub account_meta : TransactionInstructionAccount → AccountMeta
  unfolding meta_by
  account_meta account = meta_by account.is_writable account.pubkey account.is_signer

  -- `impl From<&TransactionInstructionData> for Instruction`
  unfoldable pub instruction : TransactionInstructionData → Instruction
  unfolding account_meta
  instruction ix = record {
    program_id = ix.program_id;
    accounts = map account_meta ix.accounts;
    bytes = ix.bytes;
  }

-- The keys and bytes are of their types.
abbrev pub IsInstructionAccount : TransactionInstructionAccount → Type 0
IsInstructionAccount a = IsKey a.pubkey

pub record IsInstructionData (ix : TransactionInstructionData) : Type 0 where
  pub program_id_fits : IsKey ix.program_id
  pub accounts_fit : IsVec IsInstructionAccount ix.accounts
  pub bytes_fit : IsVec IsU8 ix.bytes

abbrev AccountFields : Type 0
AccountFields = Pubkey × (Bool × Bool)

abbrev of_account_fields : AccountFields → TransactionInstructionAccount
of_account_fields (pubkey, (is_signer, is_writable)) = record {
  pubkey = pubkey;
  is_signer = is_signer;
  is_writable = is_writable;
}

abbrev to_account_fields : TransactionInstructionAccount → AccountFields
to_account_fields a = (a.pubkey, (a.is_signer, a.is_writable))

abbrev Fields : Type 0
Fields = Pubkey × (List TransactionInstructionAccount × List ℕ)

abbrev of_fields : Fields → TransactionInstructionData
of_fields (program_id, (accounts, bytes)) = record {
  program_id = program_id;
  accounts = accounts;
  bytes = bytes;
}

abbrev to_fields : TransactionInstructionData → Fields
to_fields ix = (ix.program_id, (ix.accounts, ix.bytes))

module _ (b : Borsh) where
  unfoldable pub instruction_account_codec : Encoding IsInstructionAccount (λ _. 34)
  instruction_account_codec =
      restate (λ a h. h.0) (λ a h. (h, (tt, tt))) (λ a. refl)
        (struct of_account_fields to_account_fields (λ a. refl) (λ t. refl)
          (both b.pubkey (both b.bool b.bool)))

  fields_size :
      (ix : TransactionInstructionData)
      → 32 + ((4 + sum_of (λ _. 34) ix.accounts) + (4 + sum_of (λ _. 1) ix.bytes)) ≡ len ix
  unfolding len
  fields_size ix = omega (arith, sum_of-const 34 ix.accounts, sum_of-const 1 ix.bytes)

  unfoldable pub instruction_data_codec : Encoding IsInstructionData len
  unfolding fields_size
  instruction_data_codec =
      restate (λ ix h. record { program_id_fits = h.0; accounts_fit = h.1.0; bytes_fit = h.1.1 })
        (λ ix h. (h.program_id_fits, (h.accounts_fit, h.bytes_fit))) fields_size
        (struct of_fields to_fields (λ ix. refl) (λ t. refl)
          (both b.pubkey (both (b.vec instruction_account_codec) (b.vec b.u8))))
