-- ===== src/Instructions/ChangeThreshold/Changed.antt =====
-- What a successful `change_threshold` (program/src/instructions/change_threshold.rs) has checked
-- and written.
use multisig_native.Base.{ℕ, ◌%◌, ◌^◌, ◌<◌, ◌≤◌, ◌≡◌, List, ◌∷◌, length, arith, ==_refl}
use multisig_native.Errors.{ok, bind_ok, ok-injective}
use multisig_native.Sdk.{Pubkey, AccountInfo, Store, Runtime}
use multisig_native.State.MultisigAccount.{Multisig}
use multisig_native.State.Stored.{multisig_bytes}
use multisig_native.State.Saved.{
  HoldsMultisig, Rewritten, with_bytes, with_bytes-Rewritten, with_bytes-HoldsMultisig,
}
use multisig_native.Common.{with_threshold, validate_threshold}
use multisig_native.Common.Checks.{validate_threshold_iff, validate_signer_iff}
use multisig_native.Common.Writes.{execute_change_threshold_lem, with_threshold-stored}
use multisig_native.Instructions.Accounts.{accounts2-ok, accounts2-cons}
use multisig_native.Instructions.Authority.{MayChange, change-ok}
use multisig_native.Instructions.ChangeThreshold.{ChangeThresholdInstruction, change_threshold}

module _ (rt : Runtime) (program_id : Pubkey) where
  -- What a successful call has checked and done.
  pub record ThresholdChanged (accounts : List AccountInfo) (threshold : ℕ) (s t : Store)
      : Type 0 where
    pub multisig_account : AccountInfo
    pub multisig_signer : AccountInfo
    pub rest : List AccountInfo
    pub given : accounts ≡ multisig_account ∷ multisig_signer ∷ rest
    pub multisig : Multisig
    pub allowed : MayChange rt program_id multisig_account multisig_signer multisig s
    pub positive : 0 < threshold
    pub reachable : threshold ≤ length multisig.owners % 2 ^ 8
    -- Now the account holds the multisig with its new threshold, and nothing else has changed.
    pub holds : HoldsMultisig rt t multisig_account.key (with_threshold multisig threshold)
    pub rewritten : Rewritten s t multisig_account.key

  -- If change_threshold succeeds, then the multisig account is the program's, its derived address
  -- has signed, and the new threshold is positive and at most the number of owners as a u8;
  -- afterwards the account holds the multisig with the new threshold, and nothing else has
  -- changed.
  pub change_threshold-ThresholdChanged :
      (accounts : List AccountInfo) (ix : ChangeThresholdInstruction) (s t : Store)
      → change_threshold rt program_id accounts ix s ≡ ok t
      → ThresholdChanged accounts ix.threshold s t
  unfolding change_threshold
  change_threshold-ThresholdChanged accounts ix s t h =
      accounts2-ok rt accounts _ h λ ms signer rest given h₀.
        change-ok rt program_id ms signer s _ h₀ λ m may h₁.
          bind_ok (validate_threshold ix.threshold m.owners) _ h₁ λ _ valid h₂.
            let (positive, reachable) = (validate_threshold_iff ix.threshold m.owners).0 valid in
            let written = execute_change_threshold_lem rt ms m ix.threshold s may.holds_multisig in
            let fits =
              with_threshold-stored rt ms.key m ix.threshold s may.holds_multisig (omega arith) in
            let after : with_bytes s ms.key
                  (multisig_bytes rt.borsh (with_threshold m ix.threshold))
                ≡ t =
              ok-injective (rw written at h₂) in
            record {
              multisig_account = ms;
              multisig_signer = signer;
              rest = rest;
              given = given;
              multisig = m;
              allowed = may;
              positive = positive;
              reachable = reachable;
              holds =
                  rw (← after)
                    (with_bytes-HoldsMultisig rt s ms.key (with_threshold m ix.threshold) fits);
              rewritten = rw (← after) (with_bytes-Rewritten s ms.key _);
            }

  -- change_threshold succeeds, and writes the multisig with the new threshold, if the multisig
  -- account is the program's, its derived address has signed, and the new threshold is positive
  -- and at most the number of owners as a u8.
  pub change_threshold_succeeds :
      (ms signer : AccountInfo) (rest : List AccountInfo) (ix : ChangeThresholdInstruction)
      (m : Multisig) (s : Store)
      → MayChange rt program_id ms signer m s
      → 0 < ix.threshold
      → ix.threshold ≤ length m.owners % 2 ^ 8
      → change_threshold rt program_id (ms ∷ signer ∷ rest) ix s
        ≡ ok (with_bytes s ms.key (multisig_bytes rt.borsh (with_threshold m ix.threshold)))
  unfolding change_threshold
  change_threshold_succeeds ms signer rest ix m s may positive reachable = simp (
    accounts2-cons rt ms signer rest,
    may.holds_multisig,
    (validate_signer_iff rt signer ms m program_id).1 (may.signer, may.signed),
    (validate_threshold_iff ix.threshold m.owners).1 (positive, reachable),
    execute_change_threshold_lem rt ms m ix.threshold s may.holds_multisig,
    may.multisig_owned,
    ==_refl program_id,
  )
