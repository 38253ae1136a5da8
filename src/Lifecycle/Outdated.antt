-- ===== src/Lifecycle/Outdated.antt =====
-- A transaction that is older than a change of its multisig's owners, over all that can happen
-- afterwards (`owner_set_seqno` of program/src/state).
use multisig_native.Base.{◌+◌, ◌%◌, ◌^◌, ◌<◌, ◌≡◌, ◌≢◌, refl, sym, ◌∙◌, ap, subst, List, ◌∷◌, arith}
use multisig_native.Errors.{ok, ok-injective}
use multisig_native.Sdk.{Pubkey, AccountInfo, Store, Runtime}
use multisig_native.State.MultisigAccount.{Multisig}
use multisig_native.State.TransactionAccount.{Transaction}
use multisig_native.State.Stored.{multisig_stored}
use multisig_native.State.Saved.{HoldsMultisig, HoldsTransaction}
use multisig_native.Common.{with_owners}
use multisig_native.Instructions.SetOwners.Changed.{set_owners-OwnersChanged}
use multisig_native.Instructions.SetOwnersAndChangeThreshold.Changed.{
  set_owners_and_change_threshold-BothChanged,
}
use multisig_native.Instructions.ApproveTransaction.{approve_transaction}
use multisig_native.Instructions.ExecuteTransaction.{execute_transaction}
use multisig_native.Processor.{
  MultisigInstruction, set_owners_ix, set_owners_and_change_threshold_ix, IsInstruction, dispatch,
}
use multisig_native.Lifecycle.Runs.{IsSmall, Run}
use multisig_native.Lifecycle.Votes.{changes, StaysAside}
use multisig_native.Lifecycle.Owners.{Backed, Run-Backed}
use multisig_native.Lifecycle.Stale.{stale_execute, stale_approve}

abbrev pub ChangesOwners : MultisigInstruction → Type 0
ChangesOwners (set_owners_ix d) = Unit
ChangesOwners (set_owners_and_change_threshold_ix d) = Unit
ChangesOwners _ = ⊥

abbrev Any : List Pubkey → Type 0
Any owners = Unit

module _ (rt : Runtime) (program_id : Pubkey) (ms signer : AccountInfo) (rest : List AccountInfo)
    (s t : Store) (m : Multisig) where
  -- The change moves on to the next sequence number.
  module _ (at : AccountInfo) (was new : Multisig) where
    moved :
        at.key ≡ ms.key
        → HoldsMultisig rt s ms.key m
        → HoldsMultisig rt s at.key was
        → (s at.key).owner ≡ program_id
        → (t at.key).owner ≡ (s at.key).owner
        → HoldsMultisig rt t at.key new
        → new.owner_set_seqno ≡ (was.owner_set_seqno + 1) % 2 ^ 32
        → Backed rt program_id t ms.key ((m.owner_set_seqno + 1) % 2 ^ 32) Any 0
    moved here held held' owned same_owner now next =
        let same : was ≡ m =
          ok-injective (sym held' ∙ subst (λ k. HoldsMultisig rt s k m) (sym here) held) in
        record {
          owned = subst (λ k. (t k).owner ≡ program_id) here (same_owner ∙ owned);
          multisig = new;
          holds = subst (λ k. HoldsMultisig rt t k new) here now;
          since = 0;
          at_most = omega arith;
          counted = omega (arith, next, ap (λ (x : Multisig). x.owner_set_seqno) same);
          owner = λ e. tt;
        }

  ChangesOwners-Backed :
      (ix : MultisigInstruction)
      → ChangesOwners ix
      → IsInstruction ix
      → IsSmall s
      → HoldsMultisig rt s ms.key m
      → dispatch rt program_id (ms ∷ signer ∷ rest) ix s ≡ ok t
      → Backed rt program_id t ms.key ((m.owner_set_seqno + 1) % 2 ^ 32) Any 0
  unfolding dispatch with_owners
  ChangesOwners-Backed (set_owners_ix d) change fits small held h =
      let c = set_owners-OwnersChanged rt program_id (ms ∷ signer ∷ rest) d s t small fits h in
      moved c.multisig_account c.multisig _ (cc c.given) held c.allowed.holds_multisig
        c.allowed.multisig_owned c.rewritten.same_owner c.holds refl
  ChangesOwners-Backed (set_owners_and_change_threshold_ix d) change fits small held h =
      let c =
        set_owners_and_change_threshold-BothChanged rt program_id (ms ∷ signer ∷ rest) d s t small
          fits.0 h in
      moved c.multisig_account c.multisig _ (cc c.given) held c.allowed.holds_multisig
        c.allowed.multisig_owned c.rewritten.same_owner c.holds refl
  ChangesOwners-Backed _ change fits small held h = absurd change

  -- After a change of a multisig's owners, by either instruction, and any run from then on, a
  -- transaction of that multisig that has its old sequence number can be neither executed nor
  -- approved, whatever multisig account is given with it. The instruction's values are of their
  -- types and no account is larger than the runtime allows; the run approves, executes and
  -- cancels nothing that is stored under the multisig's own key, and changes owners fewer than
  -- 2^32 - 1 times.
  pub dispatch_stale :
      (ix : MultisigInstruction) (u w w' : Store) (tx : AccountInfo) (transaction : Transaction)
      (r : Run rt program_id t u) (a b a' : AccountInfo) (rest' rest'' : List AccountInfo)
      → ChangesOwners ix
      → IsInstruction ix
      → IsSmall s
      → HoldsMultisig rt s ms.key m
      → dispatch rt program_id (ms ∷ signer ∷ rest) ix s ≡ ok t
      → StaysAside r ms.key
      → changes r + 1 < 2 ^ 32
      → HoldsTransaction rt u tx.key transaction
      → transaction.multisig ≡ ms.key
      → transaction.owner_set_seqno ≡ m.owner_set_seqno
      → (execute_transaction rt program_id (a ∷ b ∷ tx ∷ rest') u ≢ ok w)
        × (approve_transaction rt program_id (a' ∷ tx ∷ rest'') u ≢ ok w')
  dispatch_stale ix u w w' tx transaction r a b a' rest' rest'' change fits small held h aside few
        kept belongs old =
      let now =
        Run-Backed rt program_id ms.key ((m.owner_set_seqno + 1) % 2 ^ 32) Any r 0 aside
          (ChangesOwners-Backed ix change fits small held h) in
      let older : transaction.owner_set_seqno ≢ now.multisig.owner_set_seqno = λ e.
        let fits = (multisig_stored rt.borsh _ m held).2 in
        omega (arith, now.counted, now.at_most, fits.seqno_fits) in
      (
        stale_execute rt program_id ms.key tx.key now.multisig transaction u now.holds kept belongs
            older a b tx rest' w refl,
        stale_approve rt program_id ms.key tx.key now.multisig transaction u now.holds kept belongs
            older a' tx rest'' w' refl,
      )
