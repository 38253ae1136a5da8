-- ===== src/Instructions/SetOwnersAndChangeThreshold/Refused.antt =====
-- Every result of `set_owners_and_change_threshold` (program/src/instructions/set_owners_and_change_threshold.rs), and
-- what an error says.
use multisig_native.Base.{◌≤◌, ◌≡◌, ◌⊎◌, inl, inr, refl, List, length}
use multisig_native.Errors.{Result, ok, ProgramError}
use multisig_native.Sdk.{Pubkey, AccountInfo, Store, Runtime, IsKey, IsVec}
use multisig_native.State.MultisigAccount.{Multisig}
use multisig_native.Common.{with_owners}
use multisig_native.State.Stored.{multisig_bytes}
use multisig_native.State.Saved.{with_bytes, with_bytes-HoldsMultisig}
use multisig_native.Common.Branches.{
  UnfitOwners, UnfitThreshold, validate_owners-cases, validate_threshold-cases,
}
use multisig_native.Common.Writes.{
  max_data_length, with_owners-stored, execute_set_owners_lem, execute_change_threshold_lem,
}
use multisig_native.Instructions.Accounts.Cases.{accounts2-cases}
use multisig_native.Instructions.Authority.Refused.{
  Returns, too_few, refused, unfit, changed, change-cases,
}
use multisig_native.Instructions.SetOwnersAndChangeThreshold.{
  SetOwnersAndChangeThresholdInstruction, set_owners_and_change_threshold,
}
use multisig_native.Instructions.SetOwnersAndChangeThreshold.Changed.{
  BothChanged, set_owners_and_change_threshold-BothChanged,
}

module _ (rt : Runtime) (program_id : Pubkey) where
  -- Every result of set_owners_and_change_threshold: NotEnoughAccountKeys on fewer than two
  -- accounts; an error only for its reason (the multisig is not read or not the program's, the
  -- signer is not its derived address or has not signed, the new owners are unsuitable, the
  -- threshold is zero or more than their number as a u8); no panic; else success: the account
  -- holds the multisig with both changes, and nothing else has changed. The new owners are keys,
  -- and no account is larger than the runtime allows.
  pub set_owners_and_change_threshold-Returns :
      (accounts : List AccountInfo) (ix : SetOwnersAndChangeThresholdInstruction) (s : Store)
      → ((k : Pubkey) → length (s k).bytes ≤ max_data_length)
      → IsVec IsKey ix.owners
      → Returns rt program_id accounts s
          (λ m e. UnfitOwners m ix.owners e ⊎ UnfitThreshold ix.threshold ix.owners e)
          (BothChanged rt program_id accounts ix s)
          (set_owners_and_change_threshold rt program_id accounts ix s)
  unfolding set_owners_and_change_threshold
  set_owners_and_change_threshold-Returns accounts ix s sizes keys =
      let Done : Store → Type 0 = BothChanged rt program_id accounts ix s in
      let Unfit : Multisig → ProgramError → Type 0 =
        λ m e. UnfitOwners m ix.owners e ⊎ UnfitThreshold ix.threshold ix.owners e in
      let R : Result Store → Type 0 =
        λ r. ((t : Store) → r ≡ ok t → Done t) → Returns rt program_id accounts s Unfit Done r in
      accounts2-cases rt R accounts _ (λ few done. too_few few)
        (λ ms signer rest given.
          change-cases rt program_id ms signer s R (λ e reason done. refused given reason) _
            λ m may.
              validate_owners-cases R _ m ix.owners
                (λ e reason done. unfit given may.holds_multisig (inl reason))
                λ suitable.
                  validate_threshold-cases R _ ix.threshold ix.owners
                    (λ e reason done. unfit given may.holds_multisig (inr reason))
                    λ positive reachable.
                      let new = with_owners m ix.owners in
                      let held = with_bytes-HoldsMultisig rt s ms.key new (
                        with_owners-stored rt ms.key m ix.owners s may.holds_multisig suitable.space
                          (sizes ms.key) keys) in
                      rw
                        (
                          execute_set_owners_lem rt ms m ix.owners s may.holds_multisig
                              suitable.space,
                          execute_change_threshold_lem rt ms new ix.threshold
                              (with_bytes s ms.key (multisig_bytes rt.borsh new)) held,
                        )
                        (λ done. changed (done _ refl)))
        (λ t h.
          set_owners_and_change_threshold-BothChanged rt program_id accounts ix s t sizes keys h)
