-- ===== src/Instructions/SetOwnersAndChangeThreshold/Changed.antt =====
-- What a successful `set_owners_and_change_threshold`
-- (program/src/instructions/set_owners_and_change_threshold.rs) has checked and written.
use multisig_native.Base.{◌%◌, ◌^◌, ◌<◌, ◌≤◌, ◌≡◌, List, ◌∷◌, length, arith, ==_refl, ◌==◌, true}
use multisig_native.Errors.{ok, bind_ok, ok-injective}
use multisig_native.Sdk.{Pubkey, AccountInfo, Store, Runtime, IsKey, IsVec}
use multisig_native.State.MultisigAccount.{Multisig}
use multisig_native.State.Stored.{multisig_bytes}
use multisig_native.State.Saved.{
  HoldsMultisig, Rewritten, Rewritten-trans, with_bytes, with_bytes-Rewritten,
  with_bytes-HoldsMultisig,
}
use multisig_native.Common.{with_owners, with_threshold, validate_owners, validate_threshold}
use multisig_native.Common.Checks.{
  AreOwnersFor, validate_owners_iff, validate_threshold_iff, validate_signer_iff,
}
use multisig_native.Common.Writes.{
  execute_set_owners_lem, execute_change_threshold_lem, with_owners-stored, with_threshold-stored,
  max_data_length,
}
use multisig_native.Instructions.Accounts.{accounts2-ok, accounts2-cons}
use multisig_native.Instructions.Authority.{MayChange, change-ok}
use multisig_native.Instructions.SetOwnersAndChangeThreshold.{
  SetOwnersAndChangeThresholdInstruction, set_owners_and_change_threshold,
}

-- The multisig with both changes.
abbrev pub changed : Multisig → SetOwnersAndChangeThresholdInstruction → Multisig
changed m ix = with_threshold (with_owners m ix.owners) ix.threshold

module _ (rt : Runtime) (program_id : Pubkey) where
  -- What a successful call has checked and done.
  pub record BothChanged (accounts : List AccountInfo) (ix : SetOwnersAndChangeThresholdInstruction)
      (s t : Store) : Type 0 where
    pub multisig_account : AccountInfo
    pub multisig_signer : AccountInfo
    pub rest : List AccountInfo
    pub given : accounts ≡ multisig_account ∷ multisig_signer ∷ rest
    pub multisig : Multisig
    pub allowed : MayChange rt program_id multisig_account multisig_signer multisig s
    pub suitable : AreOwnersFor multisig ix.owners
    pub positive : 0 < ix.threshold
    pub reachable : ix.threshold ≤ length ix.owners % 2 ^ 8
    -- Now the account holds the multisig with both changes, and nothing else has changed.
    pub holds : HoldsMultisig rt t multisig_account.key (changed multisig ix)
    pub rewritten : Rewritten s t multisig_account.key

  -- If set_owners_and_change_threshold succeeds, then the multisig's derived address has signed,
  -- the new owners are suitable, and the new threshold is positive and at most their number as a
  -- u8; afterwards the account holds the multisig with both changes, and nothing else has
  -- changed. The new owners are keys, and no account is larger than the runtime allows.
  pub set_owners_and_change_threshold-BothChanged :
      (accounts : List AccountInfo) (ix : SetOwnersAndChangeThresholdInstruction) (s t : Store)
      → ((k : Pubkey) → length (s k).bytes ≤ max_data_length)
      → IsVec IsKey ix.owners
      → set_owners_and_change_threshold rt program_id accounts ix s ≡ ok t
      → BothChanged accounts ix s t
  unfolding set_owners_and_change_threshold
  set_owners_and_change_threshold-BothChanged accounts ix s t sizes keys h =
      accounts2-ok rt accounts _ h λ ms signer rest given h₀.
        change-ok rt program_id ms signer s _ h₀ λ m may h₁.
          bind_ok (validate_owners m ix.owners) _ h₁ λ _ valid h₂.
            bind_ok (validate_threshold ix.threshold ix.owners) _ h₂ λ _ valid' h₃.
              let suitable = (validate_owners_iff m ix.owners).0 valid in
              let (positive, reachable) =
                (validate_threshold_iff ix.threshold ix.owners).0 valid' in
              let new = with_owners m ix.owners in
              let u = with_bytes s ms.key (multisig_bytes rt.borsh new) in
              let written =
                execute_set_owners_lem rt ms m ix.owners s may.holds_multisig suitable.space in
              let fits =
                with_owners-stored rt ms.key m ix.owners s may.holds_multisig suitable.space
                  (sizes ms.key) keys in
              let held = with_bytes-HoldsMultisig rt s ms.key new fits in
              let written' = execute_change_threshold_lem rt ms new ix.threshold u held in
              let fits' = with_threshold-stored rt ms.key new ix.threshold u held (omega arith) in
              let after : with_bytes u ms.key (multisig_bytes rt.borsh (changed m ix)) ≡ t =
                ok-injective (rw written' at (rw written at h₃)) in
              record {
                multisig_account = ms;
                multisig_signer = signer;
                rest = rest;
                given = given;
                multisig = m;
                allowed = may;
                suitable = suitable;
                positive = positive;
                reachable = reachable;
                holds = rw (← after) (with_bytes-HoldsMultisig rt u ms.key (changed m ix) fits');
                rewritten = rw (← after) (
                    Rewritten-trans s u _ ms.key (with_bytes-Rewritten s ms.key _)
                      (with_bytes-Rewritten u ms.key _));
              }

  -- set_owners_and_change_threshold succeeds, and writes the multisig first with the new owners
  -- and then with the new threshold too, if the multisig account is the program's, its derived
  -- address has signed, the new owners are suitable keys, the new threshold is positive and at
  -- most their number as a u8, and the account is not larger than the runtime allows.
  pub set_owners_and_change_threshold_succeeds :
      (ms signer : AccountInfo) (rest : List AccountInfo)
      (ix : SetOwnersAndChangeThresholdInstruction) (m : Multisig) (s : Store)
      → MayChange rt program_id ms signer m s
      → AreOwnersFor m ix.owners
      → 0 < ix.threshold
      → ix.threshold ≤ length ix.owners % 2 ^ 8
      → IsVec IsKey ix.owners
      → length (s ms.key).bytes ≤ max_data_length
      → set_owners_and_change_threshold rt program_id (ms ∷ signer ∷ rest) ix s
        ≡ ok (
            with_bytes
              (with_bytes s ms.key (multisig_bytes rt.borsh (with_owners m ix.owners)))
              ms.key
              (multisig_bytes rt.borsh (changed m ix)))
  unfolding set_owners_and_change_threshold
  set_owners_and_change_threshold_succeeds ms signer rest ix m s may suitable positive reachable
        keys size =
      let own : (program_id == (s ms.key).owner) ≡ true =
        rw may.multisig_owned (==_refl program_id) in
      let new = with_owners m ix.owners in
      let u = with_bytes s ms.key (multisig_bytes rt.borsh new) in
      let held =
        with_bytes-HoldsMultisig rt s ms.key new (
          with_owners-stored rt ms.key m ix.owners s may.holds_multisig suitable.space size keys) in
      simp (
        accounts2-cons rt ms signer rest,
        may.holds_multisig,
        (validate_signer_iff rt signer ms m program_id).1 (may.signer, may.signed),
        (validate_owners_iff m ix.owners).1 suitable,
        (validate_threshold_iff ix.threshold ix.owners).1 (positive, reachable),
        execute_set_owners_lem rt ms m ix.owners s may.holds_multisig suitable.space,
        execute_change_threshold_lem rt ms new ix.threshold u held,
        own,
      )
