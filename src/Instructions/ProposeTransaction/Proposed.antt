-- ===== src/Instructions/ProposeTransaction/Proposed.antt =====
-- What a successful `propose_transaction` (program/src/instructions/propose_transaction.rs) has
-- checked and made.
use multisig_native.Base.{
  ℕ, ◌≡◌, ◌≢◌, sym, ◌∙◌, ap, subst, Bool, List, [], ◌∷◌, All, length, replicate, some, get_elem?,
  set, position, true, false, position-some, length-set, length-replicate, All-Unit, arith,
}
use multisig_native.Errors.{
  Result, ok, bind_ok, ok-injective, assert_present, set_item, invalid_owner, multisig_error_into,
}
use multisig_native.Sdk.{
  Pubkey, AccountInfo, Account, Store, Runtime, IsKey, IsVec, put_self, put_ne,
}
use multisig_native.State.MultisigAccount.{Multisig}
use multisig_native.State.MultisigAccount
use multisig_native.State.InstructionData.{IsInstructionData}
use multisig_native.State.TransactionAccount.{Transaction, IsTransaction, len}
use multisig_native.State.Save.{store_transaction}
use multisig_native.State.Stored.{transaction_bytes, multisig_stored}
use multisig_native.State.Saved.{
  HoldsMultisig, HoldsTransaction, with_bytes, with_bytes-HoldsTransaction, store_transaction-exact,
}
use multisig_native.Instructions.Accounts.{accounts5-ok}
use multisig_native.Instructions.ProposeTransaction.{
  ProposeTransactionInstruction, transaction, validate, propose_transaction,
}

-- The vote of one owner among so many.
abbrev pub first_vote : ℕ → ℕ → List Bool
first_vote owners i = set (replicate owners false) i true

-- The transaction that is proposed by owner `i`.
abbrev pub proposed : Pubkey → Multisig → ProposeTransactionInstruction → ℕ → Transaction
proposed key multisig ix i = transaction key multisig ix (first_vote (length multisig.owners) i)

module _ (rt : Runtime) (program_id : Pubkey) where
  -- What `validate` asks for.
  pub record MayPropose (multisig_account proposer system_program : AccountInfo)
      (ix : ProposeTransactionInstruction) (s : Store) : Type 0 where
    pub multisig_owned : (s multisig_account.key).owner ≡ program_id
    pub right_program : system_program.key ≡ rt.system_program
    pub signed : proposer.is_signer ≡ true
    pub nonempty : ix.instructions ≢ []

  validate-MayPropose :
      (ms proposer sys : AccountInfo) (ix : ProposeTransactionInstruction) (s : Store)
      → validate rt program_id ms proposer sys ix s ≡ ok tt
      → MayPropose ms proposer sys ix s
  unfolding validate
  validate-MayPropose ms proposer sys ix s h = record {
    multisig_owned = ground arith;
    right_program = ground arith;
    signed = ground arith;
    nonempty = λ e. ground arith;
  }

  -- The call of the system program that makes the account.
  abbrev pub make_account :
      AccountInfo → AccountInfo → AccountInfo → (ℕ → ℕ) → Transaction → Store → Result Store
  make_account transaction_account payer system_program minimum_balance t s =
      rt.invoke
        (rt.create_account payer.key transaction_account.key (minimum_balance (len t)) (len t)
          program_id)
        (payer ∷ transaction_account ∷ system_program ∷ []) s

  -- What a successful call has checked and done.
  pub record Proposed (accounts : List AccountInfo) (ix : ProposeTransactionInstruction)
      (s t : Store) : Type 0 where
    pub multisig_account : AccountInfo
    pub transaction_account : AccountInfo
    pub proposer : AccountInfo
    pub payer : AccountInfo
    pub system_program : AccountInfo
    pub rest : List AccountInfo
    pub given :
        accounts ≡ multisig_account ∷ transaction_account ∷ proposer ∷ payer ∷ system_program ∷ rest
    pub multisig : Multisig
    pub holds_multisig : HoldsMultisig rt s multisig_account.key multisig
    pub checked : MayPropose multisig_account proposer system_program ix s
    -- The proposer is the owner at `index`.
    pub index : ℕ
    pub owner : get_elem? multisig.owners index ≡ some proposer.key
    -- The account was not in use, and now it is the program's and holds the transaction, with
    -- the proposer's vote.
    pub unused : (s transaction_account.key).lamports ≡ 0
    pub empty : (s transaction_account.key).bytes ≡ []
    pub owned : (t transaction_account.key).owner ≡ program_id
    pub holds :
        HoldsTransaction rt t transaction_account.key
          (proposed multisig_account.key multisig ix index)
    -- No other account's data or owner has changed.
    pub others_bytes : (k : Pubkey) → k ≢ transaction_account.key → (t k).bytes ≡ (s k).bytes
    pub others_owner : (k : Pubkey) → k ≢ transaction_account.key → (t k).owner ≡ (s k).owner

  proposed-IsTransaction :
      (key : Pubkey) (multisig : Multisig) (ix : ProposeTransactionInstruction) (i : ℕ)
      → IsKey key
      → MultisigAccount.IsMultisig multisig
      → IsVec IsInstructionData ix.instructions
      → IsTransaction (proposed key multisig ix i)
  proposed-IsTransaction key multisig ix i is_key fits typed =
      let n = length multisig.owners in
      record {
        multisig_fits = is_key;
        instructions_fit = typed;
        signers_fit = (
          omega (
            arith,
            length-set (replicate n false) i true,
            length-replicate n false,
            fits.owners_fit.0,
          ),
          All-Unit (first_vote n i),
        );
        seqno_fits = fits.seqno_fits;
      }

  stored-Proposed :
      (ms tx proposer payer sys : AccountInfo) (rest accounts : List AccountInfo)
      (ix : ProposeTransactionInstruction) (multisig : Multisig) (i : ℕ) (minimum_balance : ℕ → ℕ)
      (s created : Store)
      → accounts ≡ ms ∷ tx ∷ proposer ∷ payer ∷ sys ∷ rest
      → HoldsMultisig rt s ms.key multisig
      → MayPropose ms proposer sys ix s
      → position multisig.owners proposer.key ≡ some i
      → IsTransaction (proposed ms.key multisig ix i)
      → make_account tx payer sys minimum_balance (proposed ms.key multisig ix i) s ≡ ok created
      → Proposed accounts ix s
          (with_bytes created tx.key (transaction_bytes rt.borsh (proposed ms.key multisig ix i)))
  stored-Proposed ms tx proposer payer sys rest accounts ix multisig i minimum_balance s created
        given hm may found fits made =
      let (unused, empty, new) = rt.create_account_new _ _ _ _ _ _ s created made in
      let others = rt.create_account_others _ _ _ _ _ _ s created made in
      record {
        multisig_account = ms;
        transaction_account = tx;
        proposer = proposer;
        payer = payer;
        system_program = sys;
        rest = rest;
        given = given;
        multisig = multisig;
        holds_multisig = hm;
        checked = may;
        index = i;
        owner = position-some multisig.owners proposer.key i found;
        unused = unused;
        empty = empty;
        owned = rw (put_self created tx.key, new);
        holds = with_bytes-HoldsTransaction rt created tx.key (proposed ms.key multisig ix i) fits;
        others_bytes = λ k ne. rw (put_ne created tx.key k _ (λ e. ne (sym e))) (others k ne).0;
        others_owner = λ k ne. rw (put_ne created tx.key k _ (λ e. ne (sym e))) (others k ne).1;
      }

  -- If propose_transaction succeeds, with keys and instructions of their types, then the multisig
  -- is the program's, the proposer has signed and is one of its owners, there is an instruction,
  -- and the transaction account was not in use; it now is the program's and holds the transaction
  -- with the multisig's sequence number and the proposer's vote only, and no other account's data
  -- or owner has changed.
  pub propose_transaction-Proposed :
      (accounts : List AccountInfo) (ix : ProposeTransactionInstruction) (s t : Store)
      → All (λ a. IsKey a.key) accounts
      → IsVec IsInstructionData ix.instructions
      → propose_transaction rt program_id accounts ix s ≡ ok t
      → Proposed accounts ix s t
  unfolding propose_transaction
  propose_transaction-Proposed accounts ix s t keys typed h =
      accounts5-ok rt accounts _ h λ ms tx proposer payer sys rest given h₀.
        bind_ok (validate rt program_id ms proposer sys ix s) _ h₀ λ _ valid h₁.
          bind_ok (MultisigAccount.checked_deserialize rt.borsh (s ms.key).bytes) _ h₁
            λ multisig hm h₂.
              bind_ok (assert_present (position multisig.owners proposer.key) invalid_owner) _ h₂
                λ i found h₃.
                  bind_ok (set_item (replicate (length multisig.owners) false) i true) _ h₃
                    λ signers written h₄.
                      let new : first_vote (length multisig.owners) i ≡ signers = ground arith in
                      bind_ok rt.rent_get _ h₄ λ minimum_balance rent h₅.
                        bind_ok
                          (make_account tx payer sys minimum_balance
                            (transaction ms.key multisig ix signers) s)
                          _ h₅
                          λ created made h₆.
                            let tr = proposed ms.key multisig ix i in
                            let made' : make_account tx payer sys minimum_balance tr s
                                ≡ ok created =
                              rw new made in
                            let stored : store_transaction rt tx tr created ≡ ok t = rw new h₆ in
                            let (_, _, fresh) = rt.create_account_new _ _ _ _ _ _ s created made' in
                            let exact =
                              store_transaction-exact rt tx tr created
                                (ap (λ (a : Account). a.bytes) fresh) in
                            let is_key =
                              (subst (All (λ (a : AccountInfo). IsKey a.key)) given keys).0 in
                            let fits = (multisig_stored rt.borsh _ multisig hm).2 in
                            subst (Proposed accounts ix s) (ok-injective (sym exact ∙ stored)) (
                              stored-Proposed ms tx proposer payer sys rest accounts ix multisig i
                                minimum_balance s created given hm
                                (validate-MayPropose ms proposer sys ix s valid) (ground arith)
                                (proposed-IsTransaction ms.key multisig ix i is_key fits typed)
                                made')
