-- ===== src/Instructions/ApproveTransaction/Approved.antt =====
-- What a successful `approve_transaction` (program/src/instructions/approve_transaction.rs) has
-- checked and written, and when it succeeds.
use multisig_native.Base.{
  ℕ, ◌<◌, ◌≡◌, sym, ◌∙◌, List, ◌∷◌, length, some, get_elem?, set, position, true, position-some,
  arith, lt→ltb,
}
use multisig_native.Errors.{
  ok, bind_ok, ok-injective, assert_present, set_item, invalid_owner, multisig_error_into,
}
use multisig_native.Sdk.{Pubkey, AccountInfo, Store, Runtime}
use multisig_native.State.MultisigAccount.{Multisig}
use multisig_native.State.MultisigAccount
use multisig_native.State.TransactionAccount.{Transaction}
use multisig_native.State.TransactionAccount
use multisig_native.State.Save.{store_transaction}
use multisig_native.State.Stored.{transaction_bytes, transaction_stored}
use multisig_native.State.Saved.{
  HoldsMultisig, HoldsTransaction, Rewritten, with_bytes, with_bytes-Rewritten,
  with_bytes-HoldsTransaction, store_transaction-over, with_vote, len-with_vote,
  with_vote-IsTransaction,
}
use multisig_native.Instructions.Accounts.{accounts3-ok, accounts3-cons}
use multisig_native.Instructions.ApproveTransaction.{validate, approve_transaction}

-- What `validate` asks for.
pub record MayApprove (program_id : Pubkey) (multisig : Multisig) (transaction : Transaction)
    (approver transaction_account multisig_account : AccountInfo) (s : Store) : Type 0 where
  pub multisig_owned : (s multisig_account.key).owner ≡ program_id
  pub transaction_owned : (s transaction_account.key).owner ≡ program_id
  pub same_owners : transaction.owner_set_seqno ≡ multisig.owner_set_seqno
  pub signed : approver.is_signer ≡ true
  pub writable : transaction_account.is_writable ≡ true
  pub belongs : transaction.multisig ≡ multisig_account.key

module _ (program_id : Pubkey) (multisig : Multisig) (transaction : Transaction)
    (approver transaction_account multisig_account : AccountInfo) (s : Store) where
  validate-MayApprove :
      validate program_id multisig transaction approver transaction_account multisig_account s
        ≡ ok tt
      → MayApprove program_id multisig transaction approver transaction_account multisig_account s
  unfolding validate
  validate-MayApprove h = ground arith

  MayApprove-validate :
      MayApprove program_id multisig transaction approver transaction_account multisig_account s
      → validate program_id multisig transaction approver transaction_account multisig_account s
        ≡ ok tt
  unfolding validate
  MayApprove-validate h = ground arith

module _ (rt : Runtime) (program_id : Pubkey) where
  -- approve_transaction succeeds, and writes exactly the transaction with one more vote, if the
  -- accounts hold a multisig and a transaction that pass the checks and the approver's position
  -- among the owners is one of the votes.
  pub approve_transaction_succeeds :
      (multisig_account transaction_account approver : AccountInfo) (rest : List AccountInfo)
      (multisig : Multisig) (transaction : Transaction) (i : ℕ) (s : Store)
      → HoldsMultisig rt s multisig_account.key multisig
      → HoldsTransaction rt s transaction_account.key transaction
      → MayApprove program_id multisig transaction approver transaction_account multisig_account s
      → position multisig.owners approver.key ≡ some i
      → i < length transaction.signers
      → approve_transaction rt program_id
          (multisig_account ∷ transaction_account ∷ approver ∷ rest)
          s
        ≡ ok (
            with_bytes s transaction_account.key
              (transaction_bytes rt.borsh (with_vote transaction i)))
  unfolding approve_transaction
  approve_transaction_succeeds ms tx approver rest multisig transaction i s hm ht may found within =
      simp
        (
          accounts3-cons rt ms tx approver rest,
          hm,
          ht,
          MayApprove-validate program_id multisig transaction approver tx ms s may,
          found,
          lt→ltb i (length transaction.signers) within,
        )
        (store_transaction-over rt tx transaction (with_vote transaction i) s ht
          (len-with_vote transaction i))

  -- What a successful call has checked and done.
  pub record Approved (accounts : List AccountInfo) (s t : Store) : Type 0 where
    pub multisig_account : AccountInfo
    pub transaction_account : AccountInfo
    pub approver : AccountInfo
    pub rest : List AccountInfo
    pub given : accounts ≡ multisig_account ∷ transaction_account ∷ approver ∷ rest
    pub multisig : Multisig
    pub transaction : Transaction
    pub holds_multisig : HoldsMultisig rt s multisig_account.key multisig
    pub holds_transaction : HoldsTransaction rt s transaction_account.key transaction
    pub checked :
        MayApprove program_id multisig transaction approver transaction_account multisig_account s
    -- The approver is the owner at `index`, and has a place among the votes.
    pub index : ℕ
    pub owner : get_elem? multisig.owners index ≡ some approver.key
    pub within : index < length transaction.signers
    -- Now the transaction has that owner's vote, and nothing else has changed.
    pub voted : HoldsTransaction rt t transaction_account.key (with_vote transaction index)
    pub rewritten : Rewritten s t transaction_account.key

  voted-Approved :
      (ms tx approver : AccountInfo) (rest accounts : List AccountInfo) (multisig : Multisig)
      (transaction : Transaction) (i : ℕ) (s t : Store)
      → accounts ≡ ms ∷ tx ∷ approver ∷ rest
      → HoldsMultisig rt s ms.key multisig
      → HoldsTransaction rt s tx.key transaction
      → MayApprove program_id multisig transaction approver tx ms s
      → position multisig.owners approver.key ≡ some i
      → i < length transaction.signers
      → t ≡ with_bytes s tx.key (transaction_bytes rt.borsh (with_vote transaction i))
      → Approved accounts s t
  voted-Approved ms tx approver rest accounts multisig transaction i s t given hm ht may found
        within after =
      record {
        multisig_account = ms;
        transaction_account = tx;
        approver = approver;
        rest = rest;
        given = given;
        multisig = multisig;
        transaction = transaction;
        holds_multisig = hm;
        holds_transaction = ht;
        checked = may;
        index = i;
        owner = position-some multisig.owners approver.key i found;
        within = within;
        voted = rw after (
            with_bytes-HoldsTransaction rt s tx.key (with_vote transaction i) (
              with_vote-IsTransaction transaction i
                (transaction_stored rt.borsh _ transaction ht).2));
        rewritten = rw after (with_bytes-Rewritten s tx.key _);
      }

  -- If approve_transaction succeeds, then the multisig and the transaction are the program's and
  -- hold what was read, the sequence numbers agree, the transaction is of this multisig, and the
  -- approver has signed and is the owner at some index; afterwards the transaction has the vote
  -- at that index, its other fields are as before, and nothing else has changed.
  pub approve_transaction-Approved :
      (accounts : List AccountInfo) (s t : Store)
      → approve_transaction rt program_id accounts s ≡ ok t
      → Approved accounts s t
  unfolding approve_transaction
  approve_transaction-Approved accounts s t h =
      accounts3-ok rt accounts _ h λ ms tx approver rest given h₀.
        bind_ok (MultisigAccount.checked_deserialize rt.borsh (s ms.key).bytes) _ h₀
          λ multisig hm h₁.
            bind_ok (TransactionAccount.checked_deserialize rt.borsh (s tx.key).bytes) _ h₁
              λ transaction ht h₂.
                bind_ok (validate program_id multisig transaction approver tx ms s) _ h₂
                  λ _ valid h₃.
                    bind_ok (assert_present (position multisig.owners approver.key) invalid_owner) _
                      h₃
                      λ i found h₄.
                        bind_ok (set_item transaction.signers i true) _ h₄ λ signers written h₅.
                          let at : position multisig.owners approver.key ≡ some i = ground arith in
                          let within : i < length transaction.signers = ground arith in
                          let new : signers ≡ set transaction.signers i true = ground arith in
                          let stored : store_transaction rt tx (with_vote transaction i) s ≡ ok t =
                            rw (← new) h₅ in
                          let over =
                            store_transaction-over rt tx transaction (with_vote transaction i) s ht
                              (len-with_vote transaction i) in
                          voted-Approved ms tx approver rest accounts multisig transaction i s t
                            given hm ht
                            (validate-MayApprove program_id multisig transaction approver tx ms s
                              valid)
                            at within (ok-injective (sym stored ∙ over))
