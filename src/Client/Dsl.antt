-- ===== src/Client/Dsl.antt =====
-- ts/multisigDsl.ts: the accounts with which the client executes a transaction. The rest of the
-- file runs a test validator, and is not modelled.
pub mod Deduped
pub mod Suffices
use Prim.Native.String.{String}
use text.Mathlib.Text.{◌==◌ as str_eq}
use multisig_native.Base.{
  ℕ, suc, ◌≡◌, Bool, true, false, List, [], ◌∷◌, ◌++◌, map, flat_map, Option, none, some,
  if◌then◌else◌, ◌==◌,
}
use multisig_native.Sdk.{Pubkey, AccountMeta}
use multisig_native.Client.Packages.{Packages, TransactionInstruction}
use multisig_native.Client.Instructions.{meta, create_execute_transaction_instruction}

-- An account as an object: `{pubkey, isSigner, isWritable}`, or with its properties in the order
-- `{pubkey, isWritable, isSigner}`.
pub data MetaObject : Type 0 where
  signer_first : AccountMeta → MetaObject
  writable_first : AccountMeta → MetaObject

abbrev pub meta_of : MetaObject → AccountMeta
meta_of (signer_first m) = m
meta_of (writable_first m) = m

-- `JSON.stringify` of such an object shows its properties in their order, the key in base 58.
pub record Json : Type 0 where
  pub stringify : MetaObject → String
  pub stringify_injective : (a b : MetaObject) → stringify a ≡ stringify b → a ≡ b

abbrev after_first : Option ℕ → Option ℕ
after_first none = none
after_first (some i) = some (suc i)

-- `xs.findIndex(p)`, `none` for -1.
module _ {A : Type 0} where
  unfoldable pub find_index : (A → Bool) → List A → Option ℕ
  find_index p [] = none
  find_index p (x ∷ xs) = let rest = find_index p xs in if p x then some 0 else after_first rest

  -- `xs.filter(p)`, of values and their indices from `i` on.
  unfoldable pub filter_indexed : (A → ℕ → Bool) → ℕ → List A → List A
  filter_indexed p i [] = []
  filter_indexed p i (x ∷ xs) =
      let rest = filter_indexed p (suc i) xs in if p x i then x ∷ rest else rest

-- The callback of the first `map`.
unfoldable pub without_signature : Pubkey → AccountMeta → AccountMeta
without_signature multisig_signer m =
    if m.pubkey == multisig_signer then record m { is_signer = false } else m

-- The callback of `flatMap`: an instruction's accounts, and its program.
unfoldable pub accounts_of : Pubkey → TransactionInstruction → List MetaObject
unfolding without_signature
accounts_of multisig_signer ix =
    map (λ m. signer_first (without_signature multisig_signer m)) ix.keys
    ++ (writable_first (meta ix.program_id false false) ∷ [])

-- `index === found`
abbrev pub is_index : ℕ → Option ℕ → Bool
is_index i none = false
is_index i (some j) = i == j

module _ (json : Json) where
  abbrev pub same_text : MetaObject → MetaObject → Bool
  same_text value obj = str_eq (json.stringify obj) (json.stringify value)

  -- `accounts.filter((value, index) => ...)`
  unfoldable pub deduped : List MetaObject → List MetaObject
  unfolding find_index filter_indexed
  deduped accounts =
      filter_indexed (λ value i. is_index i (find_index (same_text value) accounts)) 0 accounts

  -- The instruction that `executeTransactionWithMultipleInstructions` sends.
  unfoldable pub execute_transaction_with_multiple_instructions :
      Packages
      → Pubkey
      → Pubkey
      → List TransactionInstruction
      → Pubkey
      → Pubkey
      → Pubkey
      → Pubkey
      → Option TransactionInstruction
  unfolding accounts_of deduped create_execute_transaction_instruction
  execute_transaction_with_multiple_instructions js program_id tx_account ixs multisig_signer
        multisig_address executor refundee =
      let accounts = flat_map (accounts_of multisig_signer) ixs in
      create_execute_transaction_instruction js multisig_address multisig_signer tx_account refundee
        executor (map meta_of (deduped accounts)) program_id
