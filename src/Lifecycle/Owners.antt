-- ===== src/Lifecycle/Owners.antt =====
-- The owners that a vote stands for: what the sequence number of a multisig says of its owners
-- until it comes round (`owner_set_seqno` of program/src/state/multisig.rs).
use native.Mathlib.Decide.{ℕ_discrete}
use multisig_native.Base.{
  ℕ, ◌+◌, ◌%◌, ◌^◌, ◌≤◌, ◌≡◌, ◌≢◌, refl, sym, ◌∙◌, ap, subst, List, [], All, arith,
}
use multisig_native.Errors.{ok, ok-injective}
use multisig_native.Sdk.{IsKey, Pubkey, AccountInfo, Account, Store, Runtime}
use multisig_native.State.MultisigAccount.{Multisig}
use multisig_native.State.Stored.{multisig_stored}
use multisig_native.State.Saved.{HoldsMultisig, Rewritten}
use multisig_native.Common.{with_owners}
use multisig_native.Common.Close.{Closed, Closed-same, close_account-Closed}
use multisig_native.Instructions.CreateMultisig.Created.{create_multisig-Created}
use multisig_native.Instructions.SetOwners.Changed.{set_owners-OwnersChanged}
use multisig_native.Instructions.ChangeThreshold.Changed.{change_threshold-ThresholdChanged}
use multisig_native.Instructions.SetOwnersAndChangeThreshold.Changed.{
  set_owners_and_change_threshold-BothChanged,
}
use multisig_native.Instructions.ProposeTransaction.Proposed.{propose_transaction-Proposed}
use multisig_native.Instructions.ApproveTransaction.Approved.{approve_transaction-Approved}
use multisig_native.Instructions.CancelTransaction.Cancelled.{cancel_transaction-Cancelled}
use multisig_native.Instructions.ExecuteTransaction.Validated.{validate-Validated}
use multisig_native.Processor.{
  MultisigInstruction, create_multisig_ix, set_owners_ix, change_threshold_ix,
  set_owners_and_change_threshold_ix, propose_transaction_ix, approve_transaction_ix,
  execute_transaction_ix, cancel_transaction_ix, IsInstruction, dispatch,
}
use multisig_native.Lifecycle.Authority.{create-IsMultisig, not-HoldsMultisig}
use multisig_native.Lifecycle.Runs.{IsSmall, Outside, Run, start, call, outside, execute}
use multisig_native.Lifecycle.Votes.{changes_of, changes, IsAside, StaysAside}

-- The multisig at `key` had the sequence number `seqno` at most `n` changes ago, and if there has
-- been none since then, `P` is true of its owners.
pub record Backed (rt : Runtime) (program_id : Pubkey) (s : Store) (key : Pubkey) (seqno : ℕ)
    (P : List Pubkey → Type 0) (n : ℕ) : Type 0 where
  pub owned : (s key).owner ≡ program_id
  pub multisig : Multisig
  pub holds : HoldsMultisig rt s key multisig
  pub since : ℕ
  pub at_most : since ≤ n
  pub counted : multisig.owner_set_seqno ≡ (seqno + since) % 2 ^ 32
  pub owner : since ≡ 0 → P multisig.owners

module _ (rt : Runtime) (program_id key : Pubkey) (q : ℕ) (P : List Pubkey → Type 0) where
  module _ (s t : Store) (n : ℕ) (b : Backed rt program_id s key q P n) where
    same-Backed :
        (k : ℕ)
        → (t key).bytes ≡ (s key).bytes
        → (t key).owner ≡ (s key).owner
        → Backed rt program_id t key q P (n + k)
    same-Backed k same_bytes same_owner = record {
      owned = same_owner ∙ b.owned;
      multisig = b.multisig;
      holds = rw same_bytes b.holds;
      since = b.since;
      at_most = omega (arith, b.at_most);
      counted = b.counted;
      owner = b.owner;
    }

    kept-Backed : (k : ℕ) → t key ≡ s key → Backed rt program_id t key q P (n + k)
    kept-Backed k e =
        same-Backed k (ap (λ (a : Account). a.bytes) e) (ap (λ (a : Account). a.owner) e)

    -- A rewrite of a multisig that changes no owners, or moves on to the next number.
    Rewritten-Backed :
        (k : Pubkey) (m new : Multisig) (step : ℕ)
        → HoldsMultisig rt s k m
        → HoldsMultisig rt t k new
        → Rewritten s t k
        → new.owner_set_seqno ≡ (m.owner_set_seqno + step) % 2 ^ 32
        → (step ≡ 0 → new.owners ≡ m.owners)
        → Backed rt program_id t key q P (n + step)
    Rewritten-Backed k m new step was now r moved unless = elim (ℕ_discrete k key) [
      | no ne ↦ kept-Backed step (r.same_others key ne)
      | yes e ↦
          let same : b.multisig ≡ m =
            ok-injective (sym b.holds ∙ subst (λ j. HoldsMultisig rt s j m) e was) in
          let before : m.owner_set_seqno ≡ (q + b.since) % 2 ^ 32 = rw (← same) b.counted in
          record {
            owned = rw (← e) r.same_owner ∙ b.owned;
            multisig = new;
            holds = subst (λ j. HoldsMultisig rt t j new) e now;
            since = b.since + step;
            at_most = omega (arith, b.at_most);
            counted = omega (arith, moved, before);
            owner = λ none_since.
                rw (unless (omega (arith, none_since)), ← same)
                  (b.owner (omega (arith, none_since)));
          }
    ]

    made-Backed :
        (k : Pubkey)
        → (s k).bytes ≡ []
        → ((j : Pubkey) → j ≢ k → (t j).bytes ≡ (s j).bytes)
        → ((j : Pubkey) → j ≢ k → (t j).owner ≡ (s j).owner)
        → Backed rt program_id t key q P (n + 0)
    made-Backed k empty others_bytes others_owner = elim (ℕ_discrete key k) [
      | yes e ↦ absurd (
          not-HoldsMultisig rt s k b.multisig empty
            (subst (λ j. HoldsMultisig rt s j b.multisig) e b.holds))
      | no ne ↦ same-Backed 0 (others_bytes key ne) (others_owner key ne)
    ]

    pub Closed-Backed :
        (closed refundee : AccountInfo)
        → closed.key ≢ key
        → Closed rt closed refundee s t
        → Backed rt program_id t key q P (n + 0)
    Closed-Backed closed refundee aside c =
        let (same_bytes, same_owner) = Closed-same key (λ e. aside (sym e)) c in
        same-Backed 0 same_bytes same_owner

    pub dispatch-Backed :
        (accounts : List AccountInfo) (ix : MultisigInstruction)
        → IsInstruction ix
        → All (λ a. IsKey a.key) accounts
        → IsSmall s
        → IsAside ix accounts key
        → ix ≢ execute_transaction_ix
        → dispatch rt program_id accounts ix s ≡ ok t
        → Backed rt program_id t key q P (n + changes_of ix)
    unfolding dispatch with_owners
    dispatch-Backed accounts (create_multisig_ix d) fits keys small aside plain h =
        let c =
          create_multisig-Created rt program_id accounts d s t (create-IsMultisig rt d fits) h in
        made-Backed c.multisig_account.key c.empty c.others_bytes c.others_owner
    dispatch-Backed accounts (set_owners_ix d) fits keys small aside plain h =
        let c = set_owners-OwnersChanged rt program_id accounts d s t small fits h in
        Rewritten-Backed c.multisig_account.key c.multisig _ 1 c.allowed.holds_multisig c.holds
          c.rewritten refl (λ e. absurd (omega (arith, e)))
    dispatch-Backed accounts (change_threshold_ix d) fits keys small aside plain h =
        let c = change_threshold-ThresholdChanged rt program_id accounts d s t h in
        let fits = (multisig_stored rt.borsh _ c.multisig c.allowed.holds_multisig).2 in
        Rewritten-Backed c.multisig_account.key c.multisig _ 0 c.allowed.holds_multisig c.holds
          c.rewritten (omega (arith, fits.seqno_fits)) (λ e. refl)
    dispatch-Backed accounts (set_owners_and_change_threshold_ix d) fits keys small aside plain h =
        let c =
          set_owners_and_change_threshold-BothChanged rt program_id accounts d s t small fits.0 h in
        Rewritten-Backed c.multisig_account.key c.multisig _ 1 c.allowed.holds_multisig c.holds
          c.rewritten refl (λ e. absurd (omega (arith, e)))
    dispatch-Backed accounts (propose_transaction_ix d) fits keys small aside plain h =
        let c = propose_transaction-Proposed rt program_id accounts d s t keys fits h in
        made-Backed c.transaction_account.key c.empty c.others_bytes c.others_owner
    dispatch-Backed accounts approve_transaction_ix fits keys small aside plain h =
        let c = approve_transaction-Approved rt program_id accounts s t h in
        kept-Backed 0 (c.rewritten.same_others key (aside c.transaction_account (rw c.given)))
    dispatch-Backed accounts execute_transaction_ix fits keys small aside plain h =
        absurd (plain refl)
    dispatch-Backed accounts cancel_transaction_ix fits keys small aside plain h =
        let c = cancel_transaction-Cancelled rt program_id accounts s t h in
        Closed-Backed c.transaction_account c.refundee (aside c.transaction_account (rw c.given))
          c.closed

  pub more-Backed :
      (s : Store) (n n' : ℕ)
      → n ≤ n'
      → Backed rt program_id s key q P n
      → Backed rt program_id s key q P n'
  more-Backed s n n' more b = record {
    owned = b.owned;
    multisig = b.multisig;
    holds = b.holds;
    since = b.since;
    at_most = omega (arith, b.at_most);
    counted = b.counted;
    owner = b.owner;
  }

  pub Outside-Backed :
      (s t : Store) (n : ℕ)
      → Backed rt program_id s key q P n
      → Outside program_id s t
      → Backed rt program_id t key q P (n + 0)
  Outside-Backed s t n b o =
      let (same_bytes, same_owner) = o.keeps key b.owned in
      same-Backed s t n b 0 same_bytes (same_owner ∙ sym b.owned)

  -- Backing lasts through a run, with the changes that it makes.
  pub Run-Backed :
      {s t : Store} (r : Run rt program_id s t) (n : ℕ)
      → StaysAside r key
      → Backed rt program_id s key q P n
      → Backed rt program_id t key q P (n + changes r)
  unfolding changes StaysAside
  Run-Backed start n aside b = more-Backed _ n (n + 0) (omega arith) b
  Run-Backed (call {t} {u} r c) n aside b =
      more-Backed u (n + changes r + changes_of c.ix) (n + (changes r + changes_of c.ix))
        (omega arith)
        (dispatch-Backed t u (n + changes r) (Run-Backed r n aside.0 b) c.accounts c.ix c.typed
          c.keys c.small aside.1 c.plain c.success)
  Run-Backed (outside {t} {u} r o) n aside b =
      more-Backed u (n + changes r + 0) (n + changes r) (omega arith)
        (Outside-Backed t u (n + changes r) (Run-Backed r n aside b) o)
  Run-Backed (execute {t} {u} {w} accounts v r valid inner closes) n aside b =
      let apart = (validate-Validated rt program_id accounts t v valid).checked.ready.apart in
      let closed = close_account-Closed rt v.transaction_account v.refundee u w apart closes in
      let within = Run-Backed inner (n + changes r) aside.1 (Run-Backed r n aside.0 b) in
      more-Backed w (n + changes r + changes inner + 0) (n + (changes r + changes inner))
        (omega arith)
        (Closed-Backed u w (n + changes r + changes inner) within v.transaction_account v.refundee
          aside.2 closed)
