-- ===== src/State/Saved.antt =====
-- What the statements of `State.Save` leave in the store, where the account is as long as the
-- value that is written into it.
use multisig_native.Base.{ℕ, ◌≡◌, List, replicate, ◌≢◌, true, set, length-set, All-Unit, arith, ◌∙◌}
use multisig_native.Errors.{ok}
use multisig_native.Sdk.{Pubkey, AccountInfo, Store, put, put_self, put_ne, Runtime}
use multisig_native.Sdk.Slices
use multisig_native.State.MultisigAccount.{Multisig, IsMultisig, len, multisig_codec}
use multisig_native.State.MultisigAccount
use multisig_native.State.TransactionAccount.{Transaction, IsTransaction, transaction_codec}
use multisig_native.State.TransactionAccount
use multisig_native.State.Stored.{
  multisig_bytes, checked_deserialize-multisig_bytes, serialize-multisig_over, transaction_bytes,
  checked_deserialize-transaction_bytes, serialize-transaction_over,
}
use multisig_native.State.Save.{store_multisig, store_transaction}

-- The same store but for the data of one account.
pub record Rewritten (s t : Store) (k : Pubkey) : Type 0 where
  pub same_lamports : (t k).lamports ≡ (s k).lamports
  pub same_owner : (t k).owner ≡ (s k).owner
  pub same_others : (j : Pubkey) → k ≢ j → t j ≡ s j

abbrev pub with_bytes : Store → Pubkey → List ℕ → Store
with_bytes s k bytes = put s k (record (s k) { bytes = bytes })

pub with_bytes-Rewritten :
    (s : Store) (k : Pubkey) (bytes : List ℕ) → Rewritten s (with_bytes s k bytes) k
with_bytes-Rewritten s k bytes = record {
  same_lamports = rw (put_self s k);
  same_owner = rw (put_self s k);
  same_others = λ j ne. put_ne s k j _ ne;
}

module _ (rt : Runtime) where
  -- The account at `k` holds this multisig, or this transaction.
  abbrev pub HoldsMultisig : Store → Pubkey → Multisig → Type 0
  HoldsMultisig s k m = MultisigAccount.checked_deserialize rt.borsh (s k).bytes ≡ ok m

  abbrev pub HoldsTransaction : Store → Pubkey → Transaction → Type 0
  HoldsTransaction s k t = TransactionAccount.checked_deserialize rt.borsh (s k).bytes ≡ ok t

  pub with_bytes-HoldsMultisig :
      (s : Store) (k : Pubkey) (m : Multisig)
      → IsMultisig m
      → HoldsMultisig (with_bytes s k (multisig_bytes rt.borsh m)) k m
  with_bytes-HoldsMultisig s k m fits =
      rw (put_self s k) (checked_deserialize-multisig_bytes rt.borsh m fits)

  pub store_multisig-over :
      (account : AccountInfo) (old new : Multisig) (s : Store)
      → HoldsMultisig s account.key old
      → len new ≡ len old
      → store_multisig rt account new s
        ≡ ok (with_bytes s account.key (multisig_bytes rt.borsh new))
  unfolding store_multisig
  store_multisig-over account old new s h e =
      rw (serialize-multisig_over rt.borsh (s account.key).bytes old new h e)

  -- So too in an account that has just been made at the size of the multisig.
  pub store_multisig-exact :
      (account : AccountInfo) (m : Multisig) (s : Store)
      → (s account.key).bytes ≡ replicate (len m) 0
      → store_multisig rt account m s ≡ ok (with_bytes s account.key (multisig_bytes rt.borsh m))
  unfolding store_multisig multisig_bytes
  store_multisig-exact account m s e =
      rw (e, Slices.serialize_zeroed rt.borsh (multisig_codec rt.borsh) m)

  pub with_bytes-HoldsTransaction :
      (s : Store) (k : Pubkey) (t : Transaction)
      → IsTransaction t
      → HoldsTransaction (with_bytes s k (transaction_bytes rt.borsh t)) k t
  with_bytes-HoldsTransaction s k t fits =
      rw (put_self s k) (checked_deserialize-transaction_bytes rt.borsh t fits)

  pub store_transaction-over :
      (account : AccountInfo) (old new : Transaction) (s : Store)
      → HoldsTransaction s account.key old
      → TransactionAccount.len new ≡ TransactionAccount.len old
      → store_transaction rt account new s
        ≡ ok (with_bytes s account.key (transaction_bytes rt.borsh new))
  unfolding store_transaction
  store_transaction-over account old new s h e =
      rw (serialize-transaction_over rt.borsh (s account.key).bytes old new h e)

  pub store_transaction-exact :
      (account : AccountInfo) (t : Transaction) (s : Store)
      → (s account.key).bytes ≡ replicate (TransactionAccount.len t) 0
      → store_transaction rt account t s
        ≡ ok (with_bytes s account.key (transaction_bytes rt.borsh t))
  unfolding store_transaction transaction_bytes
  store_transaction-exact account t s e =
      rw (e, Slices.serialize_zeroed rt.borsh (transaction_codec rt.borsh) t)

-- A vote for one more owner leaves a transaction of the same size.
abbrev pub with_vote : Transaction → ℕ → Transaction
with_vote t i = record t { signers = set t.signers i true }

pub len-with_vote :
    (t : Transaction) (i : ℕ) → TransactionAccount.len (with_vote t i) ≡ TransactionAccount.len t
unfolding TransactionAccount.len
len-with_vote t i = omega (arith, length-set t.signers i true)

pub with_vote-IsTransaction :
    (t : Transaction) (i : ℕ) → IsTransaction t → IsTransaction (with_vote t i)
with_vote-IsTransaction t i fits = record {
  multisig_fits = fits.multisig_fits;
  instructions_fit = fits.instructions_fit;
  signers_fit = (
    omega (arith, length-set t.signers i true, fits.signers_fit.0),
    All-Unit (set t.signers i true),
  );
  seqno_fits = fits.seqno_fits;
}

-- Two writes into one account.
pub Rewritten-trans :
    (s t u : Store) (k : Pubkey) → Rewritten s t k → Rewritten t u k → Rewritten s u k
Rewritten-trans s t u k a b = record {
  same_lamports = b.same_lamports ∙ a.same_lamports;
  same_owner = b.same_owner ∙ a.same_owner;
  same_others = λ j ne. b.same_others j ne ∙ a.same_others j ne;
}
