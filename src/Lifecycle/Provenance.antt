-- ===== src/Lifecycle/Provenance.antt =====
-- Where the votes of a transaction come from, over all that can happen to the accounts.
use native.Mathlib.Decide.{ℕ_discrete}
use multisig_native.Base.{
  ℕ, zero, suc, ◌≡◌, ◌≢◌, ◌⊎◌, inl, inr, refl, sym, ◌∙◌, ap, true, false, List, [], length, set,
  replicate, some, get_elem?, get_elem?-set_ne, arith,
}
use multisig_native.Errors.{ok-injective}
use multisig_native.Sdk.{Pubkey, AccountInfo, Account, Store, Runtime}
use multisig_native.State.MultisigAccount.{Multisig}
use multisig_native.State.TransactionAccount.{Transaction}
use multisig_native.State.TransactionAccount
use multisig_native.State.Stored.{transaction_stored}
use multisig_native.State.Saved.{HoldsMultisig, Rewritten, with_vote}
use multisig_native.State.Confusion.{both_kinds, zeroed-transaction}
use multisig_native.Common.Close.{Closed, Closed-same}
use multisig_native.Instructions.ProposeTransaction.Proposed.{Proposed, first_vote, proposed}
use multisig_native.Instructions.ApproveTransaction.Approved.{Approved}
use multisig_native.Instructions.ProposeTransaction.{ProposeTransactionInstruction}
use multisig_native.Processor.{propose_transaction_ix, approve_transaction_ix}
use multisig_native.Lifecycle.Votes.{IsClear, HasVote, Vote}
use multisig_native.Lifecycle.Runs.{IsSmall, Outside}

not-voted : (n i : ℕ) → get_elem? (replicate n false) i ≢ some true
not-voted zero i h = cc
not-voted (suc n) zero h = cc
not-voted (suc n) (suc i) h = not-voted n i h

first_vote_at : (n i j : ℕ) → get_elem? (first_vote n i) j ≡ some true → i ≡ j
first_vote_at n i j h = elim (ℕ_discrete i j) [
  | yes e ↦ e
  | no ne ↦ absurd (not-voted n j (sym (get_elem?-set_ne (replicate n false) i j true ne) ∙ h))
]

module _ (rt : Runtime) (program_id key : Pubkey) (clear : IsClear rt key) where
  -- An account that has votes for this key holds no multisig.
  pub not-both :
      (s : Store) (tx : Pubkey) (m : Multisig) (q i : ℕ)
      → IsSmall s
      → HasVote rt program_id s tx key q i
      → ¬ HoldsMultisig rt s tx m
  not-both s tx m q i small v h =
      let (size, prefix) = both_kinds rt.borsh (s tx).bytes m v.transaction h v.holds in
      let within = small tx in clear (length m.owners) (omega arith) (rw (← v.belongs) prefix)

  not-empty :
      (s : Store) (tx : Pubkey) (q i : ℕ) → HasVote rt program_id s tx key q i → (s tx).bytes ≢ []
  unfolding TransactionAccount.len
  not-empty s tx q i v e = omega (
    arith,
    (transaction_stored rt.borsh _ v.transaction v.holds).1,
    ap (λ (x : List ℕ). length x) e,
  )

  not-zeroed :
      (s : Store) (tx : Pubkey) (q i n : ℕ)
      → HasVote rt program_id s tx key q i
      → (s tx).bytes ≢ replicate n 0
  not-zeroed s tx q i n v e =
      clear 0 (omega arith)
        (rw (← v.belongs) (zeroed-transaction rt.borsh n v.transaction (rw (← e) v.holds)))

  module _ (s t : Store) (tx : Pubkey) (q i : ℕ) (v : HasVote rt program_id t tx key q i) where
    -- An account that has not changed had the vote before.
    pub same-HasVote :
        (t tx).bytes ≡ (s tx).bytes
        → (t tx).owner ≡ (s tx).owner
        → HasVote rt program_id s tx key q i
    same-HasVote same_bytes same_owner = record {
      owned = sym same_owner ∙ v.owned;
      transaction = v.transaction;
      holds = rw (← same_bytes) v.holds;
      belongs = v.belongs;
      same_seqno = v.same_seqno;
      voted = v.voted;
    }

    pub Rewritten-HasVote :
        (k : Pubkey) (m : Multisig)
        → IsSmall t
        → HoldsMultisig rt t k m
        → Rewritten s t k
        → HasVote rt program_id s tx key q i
    Rewritten-HasVote k m small holds r = elim (ℕ_discrete k tx) [
      | yes e ↦ absurd (not-both t tx m q i small v (rw (← e) holds))
      | no ne ↦
          let same = r.same_others tx ne in
          same-HasVote (ap (λ (a : Account). a.bytes) same) (ap (λ (a : Account). a.owner) same)
    ]

    pub Closed-HasVote :
        (closed refundee : AccountInfo)
        → Closed rt closed refundee s t
        → HasVote rt program_id s tx key q i
    Closed-HasVote closed refundee c = elim (ℕ_discrete tx closed.key) [
      | yes e ↦ absurd (not-empty t tx q i v (rw e (ap (λ (a : Account). a.bytes) c.emptied)))
      | no ne ↦
          let (same_bytes, same_owner) = Closed-same tx ne c in same-HasVote same_bytes same_owner
    ]

    pub Outside-HasVote : Outside program_id s t → HasVote rt program_id s tx key q i
    Outside-HasVote o = elim (ℕ_discrete (s tx).owner program_id) [
      | yes e ↦
          let (same_bytes, same_owner) = o.keeps tx e in
          same-HasVote same_bytes (same_owner ∙ sym e)
      | no ne ↦ let (n, zeros) = o.zeroed tx ne v.owned in absurd (not-zeroed t tx q i n v zeros)
    ]

    pub Proposed-HasVote :
        (accounts : List AccountInfo) (d : ProposeTransactionInstruction)
        → Proposed rt program_id accounts d s t
        → HasVote rt program_id s tx key q i
          ⊎ ((voter : Pubkey) × Vote rt program_id
                (propose_transaction_ix d)
                accounts
                s
                tx
                key
                q
                i
                voter)
    Proposed-HasVote accounts d c = elim (ℕ_discrete tx c.transaction_account.key) [
      | no ne ↦ inl (same-HasVote (c.others_bytes tx ne) (c.others_owner tx ne))
      | yes e ↦
          let same : v.transaction ≡ proposed c.multisig_account.key c.multisig d c.index =
            ok-injective (sym v.holds ∙ rw e c.holds) in
          let its_key : c.multisig_account.key ≡ key =
            ap (λ (r : Transaction). r.multisig) (sym same) ∙ v.belongs in
          let at : c.index ≡ i =
            first_vote_at (length c.multisig.owners) c.index i
              (rw (← ap (λ (r : Transaction). r.signers) same) v.voted) in
          inr (
            c.proposer.key,
            record {
              voting = tt;
              transaction_account = c.transaction_account;
              second = rw c.given;
              names_transaction = sym e;
              voter_account = c.proposer;
              names_voter = refl;
              third = rw c.given;
              signed = c.checked.signed;
              multisig = c.multisig;
              multisig_owned = rw (← its_key) c.checked.multisig_owned;
              holds_multisig = rw (← its_key) c.holds_multisig;
              same_seqno = ap (λ (r : Transaction). r.owner_set_seqno) (sym same) ∙ v.same_seqno;
              owner = rw (← at) c.owner;
            },
          )
    ]

    pub Approved-HasVote :
        (accounts : List AccountInfo)
        → Approved rt program_id accounts s t
        → HasVote rt program_id s tx key q i
          ⊎ ((voter : Pubkey) × Vote rt program_id approve_transaction_ix accounts s tx key q i
                voter)
    Approved-HasVote accounts c = elim (ℕ_discrete c.transaction_account.key tx) [
      | no ne ↦
          let same = c.rewritten.same_others tx ne in
          inl
            (same-HasVote (ap (λ (a : Account). a.bytes) same) (ap (λ (a : Account). a.owner) same))
      | yes e ↦
          let same : v.transaction ≡ with_vote c.transaction c.index =
            ok-injective (sym v.holds ∙ rw (← e) c.voted) in
          let its_key : c.transaction.multisig ≡ key =
            ap (λ (r : Transaction). r.multisig) (sym same) ∙ v.belongs in
          let its_seqno : c.transaction.owner_set_seqno ≡ q =
            ap (λ (r : Transaction). r.owner_set_seqno) (sym same) ∙ v.same_seqno in
          let its_vote : get_elem? (set c.transaction.signers c.index true) i ≡ some true =
            rw (← ap (λ (r : Transaction). r.signers) same) v.voted in
          let this_key : c.multisig_account.key ≡ key = sym c.checked.belongs ∙ its_key in
          elim (ℕ_discrete c.index i) [
            | no ne ↦ inl (record {
              owned = rw (← e) c.checked.transaction_owned;
              transaction = c.transaction;
              holds = rw (← e) c.holds_transaction;
              belongs = its_key;
              same_seqno = its_seqno;
              voted = sym (get_elem?-set_ne c.transaction.signers c.index i true ne) ∙ its_vote;
            })
            | yes at ↦ inr (
              c.approver.key,
              record {
                voting = tt;
                transaction_account = c.transaction_account;
                second = rw c.given;
                names_transaction = e;
                voter_account = c.approver;
                names_voter = refl;
                third = rw c.given;
                signed = c.checked.signed;
                multisig = c.multisig;
                multisig_owned = rw (← this_key) c.checked.multisig_owned;
                holds_multisig = rw (← this_key) c.holds_multisig;
                same_seqno = sym c.checked.same_owners ∙ its_seqno;
                owner = rw (← at) c.owner;
              },
            )
          ]
    ]
