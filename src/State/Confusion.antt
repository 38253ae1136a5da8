-- ===== src/State/Confusion.antt =====
-- Data that is read as a multisig and as a transaction too: neither kind of account carries a
-- mark of its kind (program/src/state/multisig.rs and program/src/state/transaction.rs).
use multisig_native.Base.{
  ℕ, ◌*◌, ◌<◌, ◌≡◌, sym, ◌∙◌, ap, ◌++◌, List, length, take, replicate, flat_map, append_assoc,
  take-append, take-length, take-replicate, length-replicate, arith,
}
use multisig_native.Errors.{ok}
use multisig_native.Sdk.{Borsh, Pubkey, little_endian}
use multisig_native.State.MultisigAccount.{Multisig, multisig_codec}
use multisig_native.State.MultisigAccount
use multisig_native.State.TransactionAccount.{Transaction, transaction_codec}
use multisig_native.State.TransactionAccount
use multisig_native.State.Stored.{
  multisig_bytes, transaction_bytes, multisig_stored, transaction_stored,
}

module _ (b : Borsh) where
  owners_start :
      (owners : List Pubkey) (rest : List ℕ)
      → take 4 ((b.vec b.pubkey).write owners ++ rest) ≡ b.u32.write (length owners)
  owners_start owners rest =
      let items = flat_map b.pubkey.write owners in
      let size = b.u32.length-write (length owners) in
      rw (b.vec_write b.pubkey owners, append_assoc (b.u32.write (length owners)) items rest)
        (take-append (b.u32.write (length owners)) (items ++ rest) 4 (omega arith)
          ∙ take-length (b.u32.write (length owners)) 4 size)

  multisig_starts : (m : Multisig) → take 4 (multisig_bytes b m) ≡ b.u32.write (length m.owners)
  unfolding multisig_bytes multisig_codec
  multisig_starts m = owners_start m.owners _

  transaction_starts :
      (t : Transaction) → take 4 (transaction_bytes b t) ≡ take 4 (b.pubkey.write t.multisig)
  unfolding transaction_bytes transaction_codec
  transaction_starts t =
      take-append (b.pubkey.write t.multisig) _ 4 (omega (arith, b.pubkey.length-write t.multisig))

  -- Data that reads as a multisig and as a transaction has more than 32 bytes for each owner, and
  -- the key of the transaction's multisig begins with the number of owners as a u32.
  pub both_kinds :
      (bytes : List ℕ) (m : Multisig) (t : Transaction)
      → MultisigAccount.checked_deserialize b bytes ≡ ok m
      → TransactionAccount.checked_deserialize b bytes ≡ ok t
      → (32 * length m.owners < length bytes)
        × (take 4 (b.pubkey.write t.multisig) ≡ b.u32.write (length m.owners))
  unfolding MultisigAccount.len
  both_kinds bytes m t hm ht =
      let (em, size, fits) = multisig_stored b bytes m hm in
      let (et, _, _) = transaction_stored b bytes t ht in
      (omega arith, sym (transaction_starts t) ∙ ap (take 4) (sym et ∙ em) ∙ multisig_starts m)

  -- Zeroed data is a transaction of key zero.
  pub zeroed-transaction :
      (n : ℕ) (t : Transaction)
      → TransactionAccount.checked_deserialize b (replicate n 0) ≡ ok t
      → take 4 (b.pubkey.write t.multisig) ≡ b.u32.write 0
  unfolding TransactionAccount.len little_endian
  zeroed-transaction n t h =
      let (e, size, _) = transaction_stored b (replicate n 0) t h in
      sym (transaction_starts t)
      ∙ ap (take 4) (sym e)
      ∙ take-replicate 4 n 0 (omega (arith, length-replicate {0} {A = ℕ} n 0))
      ∙ sym (b.u32_write 0)
