-- ===== src/Lifecycle/Quorum.antt =====
-- Who has cast the votes of a transaction, over all that can happen to the accounts, when it is
-- executed (program/src/instructions/execute_transaction.rs).
use native.Mathlib.Decide.{ℕ_discrete}
use multisig_native.Base.{
  ◌<◌, ◌^◌, ◌≢◌, ◌∙◌, ◌∷◌, subst, All, ℕ, ◌≤◌, ◌≡◌, ◌⊎◌, inl, inr, refl, true, List, some,
  get_elem?,
}
use multisig_native.Errors.{ok}
use multisig_native.Sdk.{IsKey, Pubkey, AccountInfo, Store, Runtime}
use multisig_native.State.MultisigAccount.{Multisig}
use multisig_native.State.TransactionAccount.{Transaction}
use multisig_native.State.Saved.{HoldsMultisig, HoldsTransaction}
use multisig_native.Common.Close.{close_account-Closed}
use multisig_native.Instructions.CreateMultisig.{multisig_data}
use multisig_native.Instructions.CreateMultisig.Created.{create_multisig-Created}
use multisig_native.Instructions.SetOwners.Changed.{set_owners-OwnersChanged}
use multisig_native.Instructions.ChangeThreshold.Changed.{change_threshold-ThresholdChanged}
use multisig_native.Instructions.SetOwnersAndChangeThreshold.Changed.{
  set_owners_and_change_threshold-BothChanged,
}
use multisig_native.Instructions.ProposeTransaction.Proposed.{propose_transaction-Proposed}
use multisig_native.Instructions.ApproveTransaction.Approved.{approve_transaction-Approved}
use multisig_native.Instructions.CancelTransaction.Cancelled.{cancel_transaction-Cancelled}
use multisig_native.Instructions.ExecuteTransaction.{count_signed, execute_transaction}
use multisig_native.Instructions.ExecuteTransaction.Validated.{validate-Validated}
use multisig_native.Instructions.ExecuteTransaction.Executed.{execute_transaction-Executed}
use multisig_native.Processor.{
  MultisigInstruction, create_multisig_ix, set_owners_ix, change_threshold_ix,
  set_owners_and_change_threshold_ix, propose_transaction_ix, approve_transaction_ix,
  execute_transaction_ix, cancel_transaction_ix, IsInstruction, dispatch,
}
use multisig_native.Lifecycle.Authority.{create-IsMultisig}
use multisig_native.Lifecycle.Runs.{IsSmall, Run, start, call, outside, execute}
use multisig_native.Lifecycle.Votes.{IsClear, HasVote, Vote, Cast, changes, StaysAside}
use multisig_native.Lifecycle.Voters.{Cast-Backed, Backed-owner}
use multisig_native.Lifecycle.Provenance.{
  same-HasVote, Rewritten-HasVote, Closed-HasVote, Outside-HasVote, Proposed-HasVote,
  Approved-HasVote, not-both,
}

-- What an execution of the transaction at `tx`, of the multisig at `key`, presupposes of the run
-- before it.
pub record Quorum {rt : Runtime} {program_id : Pubkey} {s t : Store} (r : Run rt program_id s t)
    (tx key : Pubkey) (multisig : Multisig) (transaction : Transaction) : Type 0 where
  pub held : HoldsMultisig rt t key multisig
  pub stored : HoldsTransaction rt t tx transaction
  pub same_owners : transaction.owner_set_seqno ≡ multisig.owner_set_seqno
  pub enough : multisig.threshold ≤ count_signed transaction.signers
  -- Each vote was cast in the run, signed by the owner who has that index now.
  pub cast :
      (i : ℕ)
      → get_elem? transaction.signers i ≡ some true
      → (voter : Pubkey) × (get_elem? multisig.owners i ≡ some voter)
        × Cast r tx key multisig.owner_set_seqno i voter

module _ (rt : Runtime) (program_id key : Pubkey) (clear : IsClear rt key) where
  module _ (s t : Store) (tx : Pubkey) (q i : ℕ) (v : HasVote rt program_id t tx key q i) where
    dispatch-HasVote :
        (accounts : List AccountInfo) (ix : MultisigInstruction)
        → IsInstruction ix
        → All (λ a. IsKey a.key) accounts
        → IsSmall s
        → IsSmall t
        → ix ≢ execute_transaction_ix
        → dispatch rt program_id accounts ix s ≡ ok t
        → HasVote rt program_id s tx key q i
          ⊎ ((voter : Pubkey) × Vote rt program_id ix accounts s tx key q i voter)
    unfolding dispatch
    dispatch-HasVote accounts (create_multisig_ix d) fits keys small after plain h =
        let c =
          create_multisig-Created rt program_id accounts d s t (create-IsMultisig rt d fits) h in
        elim (ℕ_discrete tx c.multisig_account.key) [
          | yes e ↦
              absurd
                (not-both rt program_id key clear t tx (multisig_data d) q i after v (rw e c.holds))
          | no ne ↦ inl (
              same-HasVote rt program_id key clear s t tx q i v (c.others_bytes tx ne)
                (c.others_owner tx ne))
        ]
    dispatch-HasVote accounts (set_owners_ix d) fits keys small after plain h =
        let c = set_owners-OwnersChanged rt program_id accounts d s t small fits h in
        inl (
          Rewritten-HasVote rt program_id key clear s t tx q i v c.multisig_account.key _ after
            c.holds c.rewritten)
    dispatch-HasVote accounts (change_threshold_ix d) fits keys small after plain h =
        let c = change_threshold-ThresholdChanged rt program_id accounts d s t h in
        inl (
          Rewritten-HasVote rt program_id key clear s t tx q i v c.multisig_account.key _ after
            c.holds c.rewritten)
    dispatch-HasVote accounts (set_owners_and_change_threshold_ix d) fits keys small after plain h =
        let c =
          set_owners_and_change_threshold-BothChanged rt program_id accounts d s t small fits.0 h in
        inl (
          Rewritten-HasVote rt program_id key clear s t tx q i v c.multisig_account.key _ after
            c.holds c.rewritten)
    dispatch-HasVote accounts (propose_transaction_ix d) fits keys small after plain h =
        Proposed-HasVote rt program_id key clear s t tx q i v accounts d
          (propose_transaction-Proposed rt program_id accounts d s t keys fits h)
    dispatch-HasVote accounts approve_transaction_ix fits keys small after plain h =
        Approved-HasVote rt program_id key clear s t tx q i v accounts
          (approve_transaction-Approved rt program_id accounts s t h)
    dispatch-HasVote accounts execute_transaction_ix fits keys small after plain h =
        absurd (plain refl)
    dispatch-HasVote accounts cancel_transaction_ix fits keys small after plain h =
        let c = cancel_transaction-Cancelled rt program_id accounts s t h in
        inl (
          Closed-HasVote rt program_id key clear s t tx q i v c.transaction_account c.refundee
            c.closed)

  -- Each vote that a transaction account has for a multisig's key after a run was there before,
  -- or was cast in the run: by a call that proposes or approves this transaction, signed by the
  -- owner at the vote's index of the multisig, which then had the transaction's sequence number.
  -- The key does not begin with a number of owners, as a u32, for which an account has room.
  pub HasVote-Cast :
      {s t : Store} (r : Run rt program_id s t) (tx : Pubkey) (q i : ℕ)
      → HasVote rt program_id t tx key q i
      → HasVote rt program_id s tx key q i ⊎ ((voter : Pubkey) × Cast r tx key q i voter)
  unfolding Cast
  HasVote-Cast start tx q i v = inl v
  HasVote-Cast (call {t} {u} r c) tx q i v =
      elim (dispatch-HasVote t u tx q i v c.accounts c.ix c.typed c.keys c.small c.small_after
        c.plain c.success) [
          | inr (voter, vote) ↦ inr (voter, inr vote)
          | inl earlier ↦ elim (HasVote-Cast r tx q i earlier) [
            | inl first ↦ inl first
            | inr (voter, cast) ↦ inr (voter, inl cast)
          ]
        ]
  HasVote-Cast (outside {t} {u} r o) tx q i v =
      HasVote-Cast r tx q i (Outside-HasVote rt program_id key clear t u tx q i v o)
  HasVote-Cast (execute {t} {u} {w} accounts a r valid inner closes) tx q i v =
      let apart = (validate-Validated rt program_id accounts t a valid).checked.ready.apart in
      let closed = close_account-Closed rt a.transaction_account a.refundee u w apart closes in
      let open_still =
        Closed-HasVote rt program_id key clear u w tx q i v a.transaction_account a.refundee
          closed in
      elim (HasVote-Cast inner tx q i open_still) [
        | inr (voter, cast) ↦ inr (voter, inr cast)
        | inl earlier ↦ elim (HasVote-Cast r tx q i earlier) [
          | inl first ↦ inl first
          | inr (voter, cast) ↦ inr (voter, inl cast)
        ]
      ]

  -- If execute_transaction succeeds after a run in whose beginning its transaction account had no
  -- vote for the multisig's key, then the account holds a transaction with at least threshold
  -- votes, and each vote was cast in that run by a call that proposes or approves it, signed by
  -- the key that is now the owner at the vote's index. A run is calls whose values are of their
  -- types, executions with whatever run their instructions make, and steps of other programs that
  -- keep the runtime's rules. The multisig's key does not begin with a number of owners, as a
  -- u32, for which an account has room; the run approves, executes and cancels nothing that is
  -- stored under the multisig's own key, and changes owners fewer than 2^32 times.
  pub execute_transaction-Quorum :
      {s t u : Store} (r : Run rt program_id s t) (ms signer tx : AccountInfo)
      (rest : List AccountInfo)
      → ms.key ≡ key
      → StaysAside r key
      → changes r < 2 ^ 32
      → ((q i : ℕ) → ¬ HasVote rt program_id s tx.key key q i)
      → execute_transaction rt program_id (ms ∷ signer ∷ tx ∷ rest) t ≡ ok u
      → (m : Multisig) × (transaction : Transaction) × Quorum r tx.key key m transaction
  execute_transaction-Quorum {s} {t} {u} r ms signer tx rest here aside few none_yet h =
      let done = execute_transaction-Executed rt program_id (ms ∷ signer ∷ tx ∷ rest) t u h in
      let may = done.checked.checked.ready in
      let a = done.validated in
      let this : a.multisig_account.key ≡ key = cc (done.checked.given, here) in
      let that : a.transaction_account.key ≡ tx.key = cc done.checked.given in
      let stored : HoldsTransaction rt t tx.key a.transaction =
        subst (λ k. HoldsTransaction rt t k a.transaction) that may.holds_transaction in
      (
        a.multisig,
        a.transaction,
        record {
          held = subst (λ k. HoldsMultisig rt t k a.multisig) this may.holds_multisig;
          stored = stored;
          same_owners = may.same_owners;
          enough = done.checked.checked.approved;
          cast = λ i yes_vote.
              elim (HasVote-Cast r tx.key a.multisig.owner_set_seqno i (record {
                owned = subst (λ k. (t k).owner ≡ program_id) that may.transaction_owned;
                transaction = a.transaction;
                holds = stored;
                belongs = may.belongs ∙ this;
                same_seqno = may.same_owners;
                voted = yes_vote;
              })) [
                | inl earlier ↦ absurd (none_yet _ i earlier)
                | inr (voter, cast) ↦ (
                  voter,
                  Backed-owner rt program_id key a.multisig.owner_set_seqno i voter t a.multisig
                      (changes r) few
                      (Cast-Backed rt program_id key a.multisig.owner_set_seqno i voter r tx.key
                        aside cast)
                      (subst (λ k. HoldsMultisig rt t k a.multisig) this may.holds_multisig) refl,
                  cast,
                )
              ];
        },
      )
