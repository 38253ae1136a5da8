-- ===== src/State/Layout.antt =====
-- The data of the two kinds of account, byte by byte (the structs of program/src/state/multisig.rs,
-- program/src/state/transaction.rs and program/src/instructions/propose_transaction.rs).
use multisig_native.Base.{
  ℕ, ◌≡◌, refl, ◌↔◌, Bool, List, [], ◌∷◌, ◌++◌, length, flat_map, if◌then◌else◌,
}
use multisig_native.Errors.{ok}
use multisig_native.Sdk.{Borsh, Encoding, little_endian}
use multisig_native.State.InstructionData.{
  TransactionInstructionAccount, TransactionInstructionData, instruction_account_codec,
  instruction_data_codec,
}
use multisig_native.State.MultisigAccount.{Multisig, IsMultisig, multisig_codec}
use multisig_native.State.MultisigAccount
use multisig_native.State.TransactionAccount.{Transaction, IsTransaction, transaction_codec}
use multisig_native.State.TransactionAccount
use multisig_native.State.Stored.{
  multisig_bytes, transaction_bytes, multisig_stored_iff, transaction_stored_iff,
}

-- A list: how many items it has, and each of them.
unfoldable pub listed : {A : Type 0} → (A → List ℕ) → List A → List ℕ
unfolding flat_map
listed f xs = little_endian 4 (length xs) ++ flat_map f xs

abbrev pub flag : Bool → List ℕ
flag v = (if v then 1 else 0) ∷ []

unfoldable pub multisig_layout : Multisig → List ℕ
unfolding listed
multisig_layout m =
    listed (little_endian 32) m.owners
    ++ (little_endian 1 m.threshold
        ++ (little_endian 1 m.nonce
            ++ (little_endian 4 m.owner_set_seqno ++ listed (little_endian 1) m.padding)))

unfoldable pub account_layout : TransactionInstructionAccount → List ℕ
account_layout a = little_endian 32 a.pubkey ++ (flag a.is_signer ++ flag a.is_writable)

unfoldable pub instruction_layout : TransactionInstructionData → List ℕ
unfolding listed account_layout
instruction_layout ix =
    little_endian 32 ix.program_id
    ++ (listed account_layout ix.accounts ++ listed (little_endian 1) ix.bytes)

unfoldable pub transaction_layout : Transaction → List ℕ
unfolding listed instruction_layout
transaction_layout t =
    little_endian 32 t.multisig
    ++ (listed instruction_layout t.instructions
        ++ (listed flag t.signers ++ little_endian 4 t.owner_set_seqno))

module _ (b : Borsh) where
  -- A vector is a list of its items' layouts.
  vec-listed :
      {A : Type 0} {F : A → Type 0} {f : A → ℕ} (c : Encoding F f) (layout : A → List ℕ)
      (xs : List A)
      → ((x : A) → c.write x ≡ layout x)
      → (b.vec c).write xs ≡ listed layout xs
  unfolding listed
  vec-listed c layout xs same =
      let items : c.write ≡ layout = λ i x. same x i in
      rw (b.vec_write c xs, items, b.u32_write (length xs)) refl

  pub multisig_bytes-multisig_layout : (m : Multisig) → multisig_bytes b m ≡ multisig_layout m
  unfolding multisig_bytes multisig_codec multisig_layout
  multisig_bytes-multisig_layout m =
      rw
        (
          vec-listed b.pubkey (little_endian 32) m.owners b.pubkey_write,
          b.u8_write m.threshold,
          b.u8_write m.nonce,
          b.u32_write m.owner_set_seqno,
          vec-listed b.u8 (little_endian 1) m.padding b.u8_write,
        )
        refl

  account_layout_lem :
      (a : TransactionInstructionAccount) → (instruction_account_codec b).write a ≡ account_layout a
  unfolding instruction_account_codec account_layout
  account_layout_lem a =
      rw (b.pubkey_write a.pubkey, b.bool_write a.is_signer, b.bool_write a.is_writable) refl

  instruction_layout_lem :
      (ix : TransactionInstructionData)
      → (instruction_data_codec b).write ix ≡ instruction_layout ix
  unfolding instruction_data_codec instruction_layout
  instruction_layout_lem ix =
      rw
        (
          b.pubkey_write ix.program_id,
          vec-listed (instruction_account_codec b) account_layout ix.accounts account_layout_lem,
          vec-listed b.u8 (little_endian 1) ix.bytes b.u8_write,
        )
        refl

  pub transaction_bytes-transaction_layout :
      (t : Transaction) → transaction_bytes b t ≡ transaction_layout t
  unfolding transaction_bytes transaction_codec transaction_layout
  transaction_bytes-transaction_layout t =
      rw
        (
          b.pubkey_write t.multisig,
          vec-listed (instruction_data_codec b) instruction_layout t.instructions
              instruction_layout_lem,
          vec-listed b.bool flag t.signers b.bool_write,
          b.u32_write t.owner_set_seqno,
        )
        refl

  -- Data is read as a multisig exactly if its fields are of their types and the data is, byte for
  -- byte and with nothing after it: the number of owners in four bytes, each owner's key in 32,
  -- the threshold in one, the nonce in one, the sequence number in four, the number of padding
  -- bytes in four, and the padding; numbers have their lowest byte first.
  pub multisig_layout_iff :
      (bytes : List ℕ) (m : Multisig)
      → (MultisigAccount.checked_deserialize b bytes ≡ ok m)
        ↔ ((bytes ≡ multisig_layout m) × IsMultisig m)
  multisig_layout_iff bytes m =
      rw (← multisig_bytes-multisig_layout m) (multisig_stored_iff b bytes m)

  -- Data is read as a transaction exactly if its fields are of their types and the data is, byte
  -- for byte and with nothing after it: the multisig's key, the number of instructions and each
  -- of them (its program's key, its accounts, each a key and two bytes for signer and writable,
  -- and its data), the number of votes and a byte for each, and the sequence number; keys have 32
  -- bytes, numbers four, lowest byte first.
  pub transaction_layout_iff :
      (bytes : List ℕ) (t : Transaction)
      → (TransactionAccount.checked_deserialize b bytes ≡ ok t)
        ↔ ((bytes ≡ transaction_layout t) × IsTransaction t)
  transaction_layout_iff bytes t =
      rw (← transaction_bytes-transaction_layout t) (transaction_stored_iff b bytes t)
