-- ===== src/Lifecycle/Authority.antt =====
-- Who can change what a multisig account holds, over all instructions of program/src/processor.rs.
use native.Mathlib.Decide.{ℕ_discrete}
use multisig_native.Base.{
  ℕ, ◌≤◌, ◌≡◌, ◌≢◌, refl, sym, ◌∙◌, ap, subst, List, [], ◌∷◌, length, All, arith,
}
use multisig_native.Errors.{ok, ok-injective}
use multisig_native.Sdk.{Pubkey, AccountInfo, Account, Store, Runtime, IsKey}
use multisig_native.State.MultisigAccount.{Multisig, IsMultisig, len}
use multisig_native.State.TransactionAccount.{Transaction}
use multisig_native.State.Stored.{multisig_stored}
use multisig_native.State.Saved.{HoldsMultisig, HoldsTransaction, Rewritten}
use multisig_native.Common.Close.{Closed}
use multisig_native.Common.Writes.{max_data_length}
use multisig_native.Instructions.CreateMultisig.{CreateMultisigInstruction, multisig_data}
use multisig_native.Instructions.CreateMultisig.Created.{create_multisig-Created}
use multisig_native.Instructions.SetOwners.Changed.{set_owners-OwnersChanged}
use multisig_native.Instructions.ChangeThreshold.Changed.{change_threshold-ThresholdChanged}
use multisig_native.Instructions.SetOwnersAndChangeThreshold.Changed.{
  set_owners_and_change_threshold-BothChanged,
}
use multisig_native.Instructions.ProposeTransaction.Proposed.{propose_transaction-Proposed}
use multisig_native.Instructions.ApproveTransaction.Approved.{approve_transaction-Approved}
use multisig_native.Instructions.CancelTransaction.Cancelled.{cancel_transaction-Cancelled}
use multisig_native.Instructions.Authority.{MayChange}
use multisig_native.Processor.{
  MultisigInstruction, create_multisig_ix, set_owners_ix, change_threshold_ix,
  set_owners_and_change_threshold_ix, propose_transaction_ix, approve_transaction_ix,
  execute_transaction_ix, cancel_transaction_ix, IsInstruction, dispatch,
}

-- An account whose data changed is the one that was written.
changed_at : (s t : Store) (j k : Pubkey) → Rewritten s t j → (t k).bytes ≢ (s k).bytes → j ≡ k
changed_at s t j k r ne = elim (ℕ_discrete j k) [
  | yes e ↦ e
  | no differs ↦ absurd (ne (ap (λ (a : Account). a.bytes) (r.same_others k differs)))
]

-- Or, where accounts are made, the one that was not in use.
made_at :
    (s t : Store) (j k : Pubkey)
    → ((i : Pubkey) → i ≢ j → (t i).bytes ≡ (s i).bytes)
    → (t k).bytes ≢ (s k).bytes
    → k ≡ j
made_at s t j k others ne = elim (ℕ_discrete k j) [
  | yes e ↦ e
  | no differs ↦ absurd (ne (others k differs))
]

module _ (rt : Runtime) where
  -- An account with no data holds no multisig.
  pub not-HoldsMultisig :
      (s : Store) (k : Pubkey) (m : Multisig) → (s k).bytes ≡ [] → ¬ HoldsMultisig rt s k m
  unfolding len
  not-HoldsMultisig s k m e h =
      omega (arith, (multisig_stored rt.borsh _ m h).1, ap (λ (x : List ℕ). length x) e)

  -- An account whose data a close has changed is the one that was closed.
  closed_at :
      (tx refundee : AccountInfo) (s t : Store) (k : Pubkey)
      → Closed rt tx refundee s t
      → (t k).bytes ≢ (s k).bytes
      → k ≡ tx.key
  closed_at tx refundee s t k c ne = elim (ℕ_discrete k tx.key) [
    | yes e ↦ e
    | no differs ↦ elim (ℕ_discrete k refundee.key) [
      | yes e ↦ absurd (
          ne (
            subst (λ j. (t j).bytes ≡ (s j).bytes) (sym e)
              (ap (λ (a : Account). a.bytes) c.refunded)))
      | no differs' ↦ absurd (ne (ap (λ (a : Account). a.bytes) (c.others k differs differs')))
    ]
  ]

  pub create-IsMultisig :
      (ix : CreateMultisigInstruction)
      → IsInstruction (create_multisig_ix ix)
      → IsMultisig (multisig_data ix)
  create-IsMultisig ix h = record {
    owners_fit = h.0;
    threshold_fits = h.1.0;
    nonce_fits = h.1.1;
    seqno_fits = omega arith;
    padding_fits = (omega arith, tt);
  }

-- The first two accounts are the multisig's account and its signer, and may change it.
pub record Signed (rt : Runtime) (program_id : Pubkey) (accounts : List AccountInfo) (k : Pubkey)
    (m : Multisig) (s : Store) : Type 0 where
  pub multisig_account : AccountInfo
  pub multisig_signer : AccountInfo
  pub rest : List AccountInfo
  pub given : accounts ≡ multisig_account ∷ multisig_signer ∷ rest
  pub here : multisig_account.key ≡ k
  pub allowed : MayChange rt program_id multisig_account multisig_signer m s

module _ (rt : Runtime) (program_id : Pubkey) (accounts : List AccountInfo) (s t : Store)
    (k : Pubkey) (m : Multisig) (held : HoldsMultisig rt s k m)
    (plain : (tr : Transaction) → ¬ HoldsTransaction rt s k tr)
    (differs : (t k).bytes ≢ (s k).bytes) where
  -- The multisig that was allowed to change is the one in question.
  allowed-Signed :
      (ms signer : AccountInfo) (rest : List AccountInfo) (m' : Multisig)
      → accounts ≡ ms ∷ signer ∷ rest
      → MayChange rt program_id ms signer m' s
      → Rewritten s t ms.key
      → Signed rt program_id accounts k m s
  allowed-Signed ms signer rest m' given may rewritten =
      let here = changed_at s t ms.key k rewritten differs in
      let same : m' ≡ m = ok-injective (sym may.holds_multisig ∙ rw here held) in
      record {
        multisig_account = ms;
        multisig_signer = signer;
        rest = rest;
        given = given;
        here = here;
        allowed = subst (λ x. MayChange rt program_id ms signer x s) same may;
      }

  -- If an instruction other than ExecuteTransaction succeeds and changes the data of an account
  -- that holds a multisig and no transaction, then that account was the first one given, it is
  -- the program's, and the second one given is the multisig's derived address and has signed. The
  -- instruction and the keys are values of their types, and no account is larger than the runtime
  -- allows.
  pub dispatch-Signed :
      (ix : MultisigInstruction)
      → IsInstruction ix
      → All (λ a. IsKey a.key) accounts
      → ((j : Pubkey) → length (s j).bytes ≤ max_data_length)
      → ix ≢ execute_transaction_ix
      → dispatch rt program_id accounts ix s ≡ ok t
      → Signed rt program_id accounts k m s
  unfolding dispatch
  dispatch-Signed (create_multisig_ix d) fits keys sizes other h =
      let c =
        create_multisig-Created rt program_id accounts d s t (create-IsMultisig rt d fits) h in
      let here = made_at s t c.multisig_account.key k c.others_bytes differs in
      absurd (not-HoldsMultisig rt s c.multisig_account.key m c.empty (rw (← here) held))
  dispatch-Signed (set_owners_ix d) fits keys sizes other h =
      let c = set_owners-OwnersChanged rt program_id accounts d s t sizes fits h in
      allowed-Signed c.multisig_account c.multisig_signer c.rest c.multisig c.given c.allowed
        c.rewritten
  dispatch-Signed (change_threshold_ix d) fits keys sizes other h =
      let c = change_threshold-ThresholdChanged rt program_id accounts d s t h in
      allowed-Signed c.multisig_account c.multisig_signer c.rest c.multisig c.given c.allowed
        c.rewritten
  dispatch-Signed (set_owners_and_change_threshold_ix d) fits keys sizes other h =
      let c =
        set_owners_and_change_threshold-BothChanged rt program_id accounts d s t sizes fits.0 h in
      allowed-Signed c.multisig_account c.multisig_signer c.rest c.multisig c.given c.allowed
        c.rewritten
  dispatch-Signed (propose_transaction_ix d) fits keys sizes other h =
      let c = propose_transaction-Proposed rt program_id accounts d s t keys fits h in
      let here = made_at s t c.transaction_account.key k c.others_bytes differs in
      absurd (not-HoldsMultisig rt s c.transaction_account.key m c.empty (rw (← here) held))
  dispatch-Signed approve_transaction_ix fits keys sizes other h =
      let c = approve_transaction-Approved rt program_id accounts s t h in
      let here = changed_at s t c.transaction_account.key k c.rewritten differs in
      absurd (plain c.transaction (rw (← here) c.holds_transaction))
  dispatch-Signed execute_transaction_ix fits keys sizes other h = absurd (other refl)
  dispatch-Signed cancel_transaction_ix fits keys sizes other h =
      let c = cancel_transaction-Cancelled rt program_id accounts s t h in
      let here = closed_at rt c.transaction_account c.refundee s t k c.closed differs in
      absurd (plain c.checked.transaction (rw here c.checked.holds_transaction))
