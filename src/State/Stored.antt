-- ===== src/State/Stored.antt =====
-- The two kinds of account data as they are stored: what `checked_deserialize` accepts, and
-- what it returns of what `serialize` has written.
use multisig_native.Base.{ℕ, ◌≡◌, ◌↔◌, List, length, some, arith}
use multisig_native.Errors.{ok, multisig_error_into}
use multisig_native.Sdk.{Borsh}
use multisig_native.Sdk.Slices
use multisig_native.State.MultisigAccount.{Multisig, IsMultisig, multisig_codec}
use multisig_native.State.MultisigAccount
use multisig_native.State.TransactionAccount.{Transaction, IsTransaction, transaction_codec}
use multisig_native.State.TransactionAccount

module _ (b : Borsh) where
  -- The bytes of a multisig account that holds `m`.
  unfoldable pub multisig_bytes : Multisig → List ℕ
  multisig_bytes m = (multisig_codec b).write m

  unfoldable pub transaction_bytes : Transaction → List ℕ
  transaction_bytes t = (transaction_codec b).write t

  multisig_read :
      (bytes : List ℕ) (m : Multisig)
      → MultisigAccount.checked_deserialize b bytes ≡ ok m
      → b.try_from_slice (multisig_codec b) bytes ≡ some m
  unfolding MultisigAccount.checked_deserialize
  multisig_read bytes m h = ground arith

  transaction_read :
      (bytes : List ℕ) (t : Transaction)
      → TransactionAccount.checked_deserialize b bytes ≡ ok t
      → b.try_from_slice (transaction_codec b) bytes ≡ some t
  unfolding TransactionAccount.checked_deserialize
  transaction_read bytes t h = ground arith

  -- Data is read as a multisig only if it is that multisig's whole encoding; then it is as long
  -- as the multisig's len, and the fields are values of their types.
  pub multisig_stored :
      (bytes : List ℕ) (m : Multisig)
      → MultisigAccount.checked_deserialize b bytes ≡ ok m
      → (bytes ≡ multisig_bytes m) × (length bytes ≡ MultisigAccount.len m) × IsMultisig m
  unfolding multisig_bytes
  multisig_stored bytes m h =
      let r = multisig_read bytes m h in
      let (e, fits) = Slices.write_of_try_from_slice b (multisig_codec b) bytes m r in
      (e, Slices.length_of_try_from_slice b (multisig_codec b) bytes m r, fits)

  -- Data is read as a transaction only if it is that transaction's whole encoding; then it is as
  -- long as the transaction's len, and the fields are values of their types.
  pub transaction_stored :
      (bytes : List ℕ) (t : Transaction)
      → TransactionAccount.checked_deserialize b bytes ≡ ok t
      → (bytes ≡ transaction_bytes t) × (length bytes ≡ TransactionAccount.len t) × IsTransaction t
  unfolding transaction_bytes
  transaction_stored bytes t h =
      let r = transaction_read bytes t h in
      let (e, fits) = Slices.write_of_try_from_slice b (transaction_codec b) bytes t r in
      (e, Slices.length_of_try_from_slice b (transaction_codec b) bytes t r, fits)

  -- The encoding of a multisig whose fields are values of their types reads back as that
  -- multisig.
  pub checked_deserialize-multisig_bytes :
      (m : Multisig)
      → IsMultisig m
      → MultisigAccount.checked_deserialize b (multisig_bytes m) ≡ ok m
  unfolding multisig_bytes MultisigAccount.checked_deserialize
  checked_deserialize-multisig_bytes m h = rw (Slices.try_from_slice-write b (multisig_codec b) m h)

  -- The encoding of a transaction whose fields are values of their types reads back as that
  -- transaction.
  pub checked_deserialize-transaction_bytes :
      (t : Transaction)
      → IsTransaction t
      → TransactionAccount.checked_deserialize b (transaction_bytes t) ≡ ok t
  unfolding transaction_bytes TransactionAccount.checked_deserialize
  checked_deserialize-transaction_bytes t h =
      rw (Slices.try_from_slice-write b (transaction_codec b) t h)

  -- Data is read as a multisig exactly if it is that multisig's whole encoding and the fields are
  -- values of their types.
  pub multisig_stored_iff :
      (bytes : List ℕ) (m : Multisig)
      → (MultisigAccount.checked_deserialize b bytes ≡ ok m)
        ↔ ((bytes ≡ multisig_bytes m) × IsMultisig m)
  multisig_stored_iff bytes m = (
    λ h. let (e, _, fits) = multisig_stored bytes m h in (e, fits),
    λ (e, fits). rw e (checked_deserialize-multisig_bytes m fits),
  )

  -- Data is read as a transaction exactly if it is that transaction's whole encoding and the
  -- fields are values of their types.
  pub transaction_stored_iff :
      (bytes : List ℕ) (t : Transaction)
      → (TransactionAccount.checked_deserialize b bytes ≡ ok t)
        ↔ ((bytes ≡ transaction_bytes t) × IsTransaction t)
  transaction_stored_iff bytes t = (
    λ h. let (e, _, fits) = transaction_stored bytes t h in (e, fits),
    λ (e, fits). rw e (checked_deserialize-transaction_bytes t fits),
  )

  -- Over a multisig of the same `len`, `serialize` replaces all of the data.
  pub serialize-multisig_over :
      (bytes : List ℕ) (old new : Multisig)
      → MultisigAccount.checked_deserialize b bytes ≡ ok old
      → MultisigAccount.len new ≡ MultisigAccount.len old
      → b.serialize (multisig_codec b) new bytes ≡ ok (multisig_bytes new)
  unfolding multisig_bytes
  serialize-multisig_over bytes old new h e =
      Slices.serialize_over b (multisig_codec b) old new bytes (multisig_read bytes old h) e

  pub serialize-transaction_over :
      (bytes : List ℕ) (old new : Transaction)
      → TransactionAccount.checked_deserialize b bytes ≡ ok old
      → TransactionAccount.len new ≡ TransactionAccount.len old
      → b.serialize (transaction_codec b) new bytes ≡ ok (transaction_bytes new)
  unfolding transaction_bytes
  serialize-transaction_over bytes old new h e =
      Slices.serialize_over b (transaction_codec b) old new bytes (transaction_read bytes old h) e
