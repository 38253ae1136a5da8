-- ===== src/Lifecycle/Validity.antt =====
-- Whether a multisig stays well formed, over all instructions of program/src/processor.rs.
use native.Mathlib.Decide.{ℕ_discrete}
use multisig_native.Base.{
  ℕ, ◌%◌, ◌^◌, ◌<◌, ◌≤◌, ◌≡◌, ◌≢◌, refl, sym, ◌∙◌, ap, subst, List, [], length, All, some,
  get_elem?, arith,
}
use multisig_native.Errors.{ok, ok-injective}
use multisig_native.Sdk.{Pubkey, AccountInfo, Account, Store, Runtime, IsKey}
use multisig_native.State.MultisigAccount.{Multisig}
use multisig_native.State.TransactionAccount.{Transaction}
use multisig_native.State.Saved.{HoldsMultisig, HoldsTransaction, Rewritten}
use multisig_native.Common.{with_owners, with_threshold}
use multisig_native.Common.Close.{Closed, Closed-same}
use multisig_native.Common.Checks.{AreOwnersFor}
use multisig_native.Common.Valid.{IsValid, with_owners-IsValid}
use multisig_native.Common.Writes.{max_data_length}
use multisig_native.Instructions.CreateMultisig.Created.{create_multisig-Created}
use multisig_native.Instructions.SetOwners.Changed.{set_owners-OwnersChanged}
use multisig_native.Instructions.ChangeThreshold.Changed.{change_threshold-ThresholdChanged}
use multisig_native.Instructions.SetOwnersAndChangeThreshold.{
  SetOwnersAndChangeThresholdInstruction,
}
use multisig_native.Instructions.SetOwnersAndChangeThreshold.Changed.{
  changed, set_owners_and_change_threshold-BothChanged,
}
use multisig_native.Instructions.ProposeTransaction.Proposed.{propose_transaction-Proposed}
use multisig_native.Instructions.ApproveTransaction.Approved.{approve_transaction-Approved}
use multisig_native.Instructions.CancelTransaction.Cancelled.{cancel_transaction-Cancelled}
use multisig_native.Processor.{
  MultisigInstruction, create_multisig_ix, set_owners_ix, change_threshold_ix,
  set_owners_and_change_threshold_ix, propose_transaction_ix, approve_transaction_ix,
  execute_transaction_ix, cancel_transaction_ix, IsInstruction, dispatch,
}
use multisig_native.Lifecycle.Authority.{create-IsMultisig, not-HoldsMultisig}

-- The number of new owners of `SetOwners` is not a multiple of 256.
abbrev pub KeepsOwners : MultisigInstruction → Type 0
KeepsOwners (set_owners_ix d) = length d.owners % 2 ^ 8 ≢ 0
KeepsOwners _ = Unit

with_threshold-IsValid :
    (m : Multisig) (threshold : ℕ)
    → IsValid m
    → 0 < threshold
    → threshold ≤ length m.owners % 2 ^ 8
    → IsValid (with_threshold m threshold)
with_threshold-IsValid m threshold valid positive reachable = record {
  unique = valid.unique;
  positive = positive;
  reachable = omega arith;
}

changed-IsValid :
    (m : Multisig) (ix : SetOwnersAndChangeThresholdInstruction)
    → AreOwnersFor m ix.owners
    → 0 < ix.threshold
    → ix.threshold ≤ length ix.owners % 2 ^ 8
    → IsValid (changed m ix)
unfolding with_owners
changed-IsValid m ix suitable positive reachable = record {
  unique = suitable.unique;
  positive = positive;
  reachable = omega arith;
}

-- The instruction reads and changes its second account as a transaction.
abbrev pub ReadsTransaction : MultisigInstruction → Type 0
ReadsTransaction approve_transaction_ix = Unit
ReadsTransaction cancel_transaction_ix = Unit
ReadsTransaction _ = ⊥

-- The account at `k` holds a well-formed multisig.
pub record HoldsValid (rt : Runtime) (s : Store) (k : Pubkey) : Type 0 where
  pub multisig : Multisig
  pub holds : HoldsMultisig rt s k multisig
  pub valid : IsValid multisig

-- The account at `k` holds a well-formed multisig after a step, too, and has the same owner.
abbrev pub Kept : Runtime → Store → Store → Pubkey → Type 0
Kept rt s t k = HoldsValid rt t k × ((t k).owner ≡ (s k).owner)

module _ (rt : Runtime) (s t : Store) (k : Pubkey) (before : HoldsValid rt s k) where
  same-Kept : (t k).bytes ≡ (s k).bytes → (t k).owner ≡ (s k).owner → Kept rt s t k
  same-Kept e same_owner = (
    record { multisig = before.multisig; holds = rw e before.holds; valid = before.valid },
    same_owner,
  )

  untouched-Kept : t k ≡ s k → Kept rt s t k
  untouched-Kept e = same-Kept (ap (λ (a : Account). a.bytes) e) (ap (λ (a : Account). a.owner) e)

  -- A rewrite of an account that is well formed again.
  Rewritten-Kept :
      (key : Pubkey) (m new : Multisig)
      → HoldsMultisig rt s key m
      → (IsValid m → IsValid new)
      → HoldsMultisig rt t key new
      → Rewritten s t key
      → Kept rt s t k
  Rewritten-Kept key m new was keeps now r = elim (ℕ_discrete key k) [
    | no ne ↦ untouched-Kept (r.same_others k ne)
    | yes e ↦
        let same : before.multisig ≡ m =
          ok-injective (sym before.holds ∙ subst (λ j. HoldsMultisig rt s j m) e was) in
        (
          record {
            multisig = new;
            holds = subst (λ j. HoldsMultisig rt t j new) e now;
            valid = keeps (subst IsValid same before.valid);
          },
          subst (λ j. (t j).owner ≡ (s j).owner) e r.same_owner,
        )
  ]

  -- A new account, or a transaction's, is another one.
  made-Kept :
      (key : Pubkey)
      → (s key).bytes ≡ []
      → ((j : Pubkey) → j ≢ key → (t j).bytes ≡ (s j).bytes)
      → ((j : Pubkey) → j ≢ key → (t j).owner ≡ (s j).owner)
      → Kept rt s t k
  made-Kept key empty others others_owner = elim (ℕ_discrete k key) [
    | no ne ↦ same-Kept (others k ne) (others_owner k ne)
    | yes e ↦ absurd (not-HoldsMultisig rt s key before.multisig empty (rw (← e) before.holds))
  ]

  Closed-Kept : (tx refundee : AccountInfo) → k ≢ tx.key → Closed rt tx refundee s t → Kept rt s t k
  Closed-Kept tx refundee ne c =
      let (same_bytes, same_owner) = Closed-same k ne c in same-Kept same_bytes same_owner

module _ (rt : Runtime) (program_id : Pubkey) (accounts : List AccountInfo) (s t : Store)
    (k : Pubkey) (before : HoldsValid rt s k) where
  -- The account is not read as a transaction of the multisig that is given.
  pub dispatch-Kept :
      (ix : MultisigInstruction)
      → IsInstruction ix
      → KeepsOwners ix
      → All (λ a. IsKey a.key) accounts
      → ((j : Pubkey) → length (s j).bytes ≤ max_data_length)
      → ix ≢ execute_transaction_ix
      → (ReadsTransaction ix
          → (ms : AccountInfo) (tr : Transaction) → get_elem? accounts 0 ≡ some ms
          → tr.multisig ≡ ms.key
          → ¬ HoldsTransaction rt s k tr)
      → dispatch rt program_id accounts ix s ≡ ok t
      → Kept rt s t k
  unfolding dispatch
  dispatch-Kept (create_multisig_ix d) fits keeps keys sizes other aside h =
      let c =
        create_multisig-Created rt program_id accounts d s t (create-IsMultisig rt d fits) h in
      made-Kept rt s t k before c.multisig_account.key c.empty c.others_bytes c.others_owner
  dispatch-Kept (set_owners_ix d) fits keeps keys sizes other aside h =
      let c = set_owners-OwnersChanged rt program_id accounts d s t sizes fits h in
      Rewritten-Kept rt s t k before c.multisig_account.key c.multisig _ c.allowed.holds_multisig
        (λ valid. with_owners-IsValid c.multisig d.owners valid c.suitable keeps) c.holds
        c.rewritten
  dispatch-Kept (change_threshold_ix d) fits keeps keys sizes other aside h =
      let c = change_threshold-ThresholdChanged rt program_id accounts d s t h in
      Rewritten-Kept rt s t k before c.multisig_account.key c.multisig _ c.allowed.holds_multisig
        (λ valid. with_threshold-IsValid c.multisig d.threshold valid c.positive c.reachable)
        c.holds c.rewritten
  dispatch-Kept (set_owners_and_change_threshold_ix d) fits keeps keys sizes other aside h =
      let c =
        set_owners_and_change_threshold-BothChanged rt program_id accounts d s t sizes fits.0 h in
      Rewritten-Kept rt s t k before c.multisig_account.key c.multisig _ c.allowed.holds_multisig
        (λ valid. changed-IsValid c.multisig d c.suitable c.positive c.reachable) c.holds
        c.rewritten
  dispatch-Kept (propose_transaction_ix d) fits keeps keys sizes other aside h =
      let c = propose_transaction-Proposed rt program_id accounts d s t keys fits h in
      made-Kept rt s t k before c.transaction_account.key c.empty c.others_bytes c.others_owner
  dispatch-Kept approve_transaction_ix fits keeps keys sizes other aside h =
      let c = approve_transaction-Approved rt program_id accounts s t h in
      let ne : c.transaction_account.key ≢ k = λ e.
        aside tt c.multisig_account c.transaction (rw c.given) c.checked.belongs
          (rw (← e) c.holds_transaction) in
      untouched-Kept rt s t k before (c.rewritten.same_others k ne)
  dispatch-Kept execute_transaction_ix fits keeps keys sizes other aside h = absurd (other refl)
  dispatch-Kept cancel_transaction_ix fits keeps keys sizes other aside h =
      let c = cancel_transaction-Cancelled rt program_id accounts s t h in
      let ne : k ≢ c.transaction_account.key = λ e.
        aside tt c.multisig_account c.checked.transaction (rw c.given) c.checked.belongs
          (rw e c.checked.holds_transaction) in
      Closed-Kept rt s t k before c.transaction_account c.refundee ne c.closed

  -- If an instruction other than ExecuteTransaction succeeds, an account that held a well-formed
  -- multisig (distinct owners, a positive threshold of at most their number) and no transaction
  -- still holds a well-formed multisig, unless the instruction is SetOwners with a multiple of
  -- 256 owners. The instruction and the keys are values of their types, and no account is larger
  -- than the runtime allows.
  pub dispatch-HoldsValid :
      ((tr : Transaction) → ¬ HoldsTransaction rt s k tr)
      → (ix : MultisigInstruction) → IsInstruction ix
      → KeepsOwners ix
      → All (λ a. IsKey a.key) accounts
      → ((j : Pubkey) → length (s j).bytes ≤ max_data_length)
      → ix ≢ execute_transaction_ix
      → dispatch rt program_id accounts ix s ≡ ok t
      → HoldsValid rt t k
  dispatch-HoldsValid plain ix fits keeps keys sizes other h =
      (dispatch-Kept ix fits keeps keys sizes other (λ reads ms tr at belongs. plain tr) h).0
