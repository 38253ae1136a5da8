-- ===== src/Lifecycle/Stale.antt =====
-- Transactions that were proposed before a change of owners: `owner_set_seqno` keeps the votes of
-- the old owners from counting (set_owners.rs, set_owners_and_change_threshold.rs,
-- approve_transaction.rs and execute_transaction.rs of program/src/instructions).
use multisig_native.Base.{refl, ◌≤◌, ◌≡◌, ◌≢◌, sym, ◌∙◌, ap, subst, List, ◌∷◌, length, arith}
use multisig_native.Errors.{ok, ok-injective}
use multisig_native.Sdk.{Pubkey, AccountInfo, Store, Runtime, IsKey, IsVec}
use multisig_native.State.MultisigAccount.{Multisig, IsMultisig}
use multisig_native.State.TransactionAccount.{Transaction}
use multisig_native.State.Stored.{multisig_stored}
use multisig_native.State.Saved.{HoldsMultisig, HoldsTransaction, Rewritten}
use multisig_native.Common.{with_owners}
use multisig_native.Common.Writes.{max_data_length}
use multisig_native.Instructions.SetOwners.{SetOwnersInstruction, set_owners}
use multisig_native.Instructions.SetOwners.Changed.{set_owners-OwnersChanged}
use multisig_native.Instructions.SetOwnersAndChangeThreshold.{
  SetOwnersAndChangeThresholdInstruction, set_owners_and_change_threshold,
}
use multisig_native.Instructions.SetOwnersAndChangeThreshold.Changed.{
  changed, set_owners_and_change_threshold-BothChanged,
}
use multisig_native.Instructions.ApproveTransaction.{approve_transaction}
use multisig_native.Instructions.ApproveTransaction.Approved.{approve_transaction-Approved}
use multisig_native.Instructions.ExecuteTransaction.{execute_transaction}
use multisig_native.Instructions.ExecuteTransaction.Executed.{execute_transaction-Executed}

-- A change of owners moves on to another sequence number, also when it wraps around.
pub seqno-with_owners :
    (m : Multisig) (owners : List Pubkey)
    → IsMultisig m
    → (with_owners m owners).owner_set_seqno ≢ m.owner_set_seqno
unfolding with_owners
seqno-with_owners m owners fits e = omega (arith, fits.seqno_fits)

module _ (rt : Runtime) (program_id : Pubkey) where
  -- A transaction whose sequence number is not its multisig's.
  module _ (key tx : Pubkey) (new : Multisig) (transaction : Transaction) (t : Store)
      (now_held : HoldsMultisig rt t key new) (kept : HoldsTransaction rt t tx transaction)
      (belongs : transaction.multisig ≡ key)
      (older : transaction.owner_set_seqno ≢ new.owner_set_seqno) where
    -- So no account that passes for its multisig agrees with it.
    disagrees :
        (key' : Pubkey) (m : Multisig) (tr : Transaction)
        → HoldsMultisig rt t key' m
        → HoldsTransaction rt t tx tr
        → tr.multisig ≡ key'
        → tr.owner_set_seqno ≢ m.owner_set_seqno
    disagrees key' m tr hm ht belongs' e =
        let same_tr : tr ≡ transaction = ok-injective (sym ht ∙ kept) in
        let same_key : key' ≡ key =
          sym belongs' ∙ ap (λ (r : Transaction). r.multisig) same_tr ∙ belongs in
        let same_m : m ≡ new = ok-injective (sym hm ∙ rw same_key now_held) in
        older (
          ap (λ (r : Transaction). r.owner_set_seqno) (sym same_tr)
          ∙ e
          ∙ ap (λ (x : Multisig). x.owner_set_seqno) same_m)

    pub stale_execute :
        (a b c : AccountInfo) (rest' : List AccountInfo) (u : Store)
        → c.key ≡ tx
        → execute_transaction rt program_id (a ∷ b ∷ c ∷ rest') t ≢ ok u
    stale_execute a b c rest' u at h =
        let done = execute_transaction-Executed rt program_id (a ∷ b ∷ c ∷ rest') t u h in
        let may = done.checked.checked.ready in
        let here : done.validated.transaction_account.key ≡ tx = cc (done.checked.given, at) in
        disagrees done.validated.multisig_account.key done.validated.multisig
          done.validated.transaction may.holds_multisig
          (subst (λ k. HoldsTransaction rt t k done.validated.transaction) here
            may.holds_transaction)
          may.belongs may.same_owners

    pub stale_approve :
        (a b : AccountInfo) (rest' : List AccountInfo) (u : Store)
        → b.key ≡ tx
        → approve_transaction rt program_id (a ∷ b ∷ rest') t ≢ ok u
    stale_approve a b rest' u at h =
        let done = approve_transaction-Approved rt program_id (a ∷ b ∷ rest') t u h in
        let here : done.transaction_account.key ≡ tx = cc (done.given, at) in
        disagrees done.multisig_account.key done.multisig done.transaction done.holds_multisig
          (subst (λ k. HoldsTransaction rt t k done.transaction) here done.holds_transaction)
          done.checked.belongs done.checked.same_owners

  -- A transaction as old as its multisig, in another account, and a call that changes the
  -- owners of the multisig.
  module _ (ms signer : AccountInfo) (rest : List AccountInfo) (s t : Store) (m : Multisig)
      (tx : Pubkey) (transaction : Transaction)
      (sizes : (k : Pubkey) → length (s k).bytes ≤ max_data_length)
      (held : HoldsMultisig rt s ms.key m) (apart : ms.key ≢ tx)
      (proposed : HoldsTransaction rt s tx transaction) (belongs : transaction.multisig ≡ ms.key)
      (as_old : transaction.owner_set_seqno ≡ m.owner_set_seqno) where
    kept : Rewritten s t ms.key → HoldsTransaction rt t tx transaction
    kept rewritten = rw (rewritten.same_others tx apart) proposed

    older :
        (new : Multisig) (owners : List Pubkey)
        → new.owner_set_seqno ≡ (with_owners m owners).owner_set_seqno
        → transaction.owner_set_seqno ≢ new.owner_set_seqno
    older new owners same e =
        let fits = (multisig_stored rt.borsh _ m held).2 in
        seqno-with_owners m owners fits (sym same ∙ sym e ∙ as_old)

    module _ (ix : SetOwnersInstruction) (keys : IsVec IsKey ix.owners)
        (change : set_owners rt program_id (ms ∷ signer ∷ rest) ix s ≡ ok t) where
      set_owners-stale : HoldsMultisig rt t ms.key (with_owners m ix.owners) × Rewritten s t ms.key
      set_owners-stale =
          let c =
            set_owners-OwnersChanged rt program_id (ms ∷ signer ∷ rest) ix s t sizes keys change in
          let here : c.multisig_account.key ≡ ms.key = cc c.given in
          let same : c.multisig ≡ m = ok-injective (sym c.allowed.holds_multisig ∙ rw here held) in
          (
            subst (λ x. HoldsMultisig rt t ms.key (with_owners x ix.owners)) same
                (subst (λ k. HoldsMultisig rt t k (with_owners c.multisig ix.owners)) here c.holds),
            subst (Rewritten s t) here c.rewritten,
          )

      -- After a successful set_owners on a multisig, a transaction of that multisig that has its
      -- old sequence number and is stored in another account cannot be executed, whatever
      -- multisig account is given with it. The new owners are keys, and no account is larger than
      -- the runtime allows.
      pub execute_transaction-set_owners :
          (a b c : AccountInfo) (rest' : List AccountInfo) (u : Store)
          → c.key ≡ tx
          → execute_transaction rt program_id (a ∷ b ∷ c ∷ rest') t ≢ ok u
      execute_transaction-set_owners =
          let (now_held, rewritten) = set_owners-stale in
          stale_execute ms.key tx (with_owners m ix.owners) transaction t now_held (kept rewritten)
            belongs (older (with_owners m ix.owners) ix.owners refl)

      -- After a successful set_owners on a multisig, a transaction of that multisig that has its
      -- old sequence number and is stored in another account cannot be approved, whatever
      -- multisig account is given with it. The new owners are keys, and no account is larger than
      -- the runtime allows.
      pub approve_transaction-set_owners :
          (a b : AccountInfo) (rest' : List AccountInfo) (u : Store)
          → b.key ≡ tx
          → approve_transaction rt program_id (a ∷ b ∷ rest') t ≢ ok u
      approve_transaction-set_owners =
          let (now_held, rewritten) = set_owners-stale in
          stale_approve ms.key tx (with_owners m ix.owners) transaction t now_held (kept rewritten)
            belongs (older (with_owners m ix.owners) ix.owners refl)

    module _ (ix : SetOwnersAndChangeThresholdInstruction) (keys : IsVec IsKey ix.owners)
        (change : set_owners_and_change_threshold rt program_id (ms ∷ signer ∷ rest) ix s
          ≡ ok t) where
      both-stale : HoldsMultisig rt t ms.key (changed m ix) × Rewritten s t ms.key
      both-stale =
          let c =
            set_owners_and_change_threshold-BothChanged rt program_id (ms ∷ signer ∷ rest) ix s t
              sizes keys change in
          let here : c.multisig_account.key ≡ ms.key = cc c.given in
          let same : c.multisig ≡ m = ok-injective (sym c.allowed.holds_multisig ∙ rw here held) in
          (
            subst (λ x. HoldsMultisig rt t ms.key (changed x ix)) same
                (subst (λ k. HoldsMultisig rt t k (changed c.multisig ix)) here c.holds),
            subst (Rewritten s t) here c.rewritten,
          )

      -- After a successful set_owners_and_change_threshold on a multisig, a transaction of that
      -- multisig that has its old sequence number and is stored in another account cannot be
      -- executed, whatever multisig account is given with it. The new owners are keys, and no
      -- account is larger than the runtime allows.
      pub execute_transaction-set_owners_and_change_threshold :
          (a b c : AccountInfo) (rest' : List AccountInfo) (u : Store)
          → c.key ≡ tx
          → execute_transaction rt program_id (a ∷ b ∷ c ∷ rest') t ≢ ok u
      execute_transaction-set_owners_and_change_threshold =
          let (now_held, rewritten) = both-stale in
          stale_execute ms.key tx (changed m ix) transaction t now_held (kept rewritten) belongs
            (older (changed m ix) ix.owners refl)

      -- After a successful set_owners_and_change_threshold on a multisig, a transaction of that
      -- multisig that has its old sequence number and is stored in another account cannot be
      -- approved, whatever multisig account is given with it. The new owners are keys, and no
      -- account is larger than the runtime allows.
      pub approve_transaction-set_owners_and_change_threshold :
          (a b : AccountInfo) (rest' : List AccountInfo) (u : Store)
          → b.key ≡ tx
          → approve_transaction rt program_id (a ∷ b ∷ rest') t ≢ ok u
      approve_transaction-set_owners_and_change_threshold =
          let (now_held, rewritten) = both-stale in
          stale_approve ms.key tx (changed m ix) transaction t now_held (kept rewritten) belongs
            (older (changed m ix) ix.owners refl)
