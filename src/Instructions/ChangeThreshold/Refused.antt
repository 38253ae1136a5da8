-- ===== src/Instructions/ChangeThreshold/Refused.antt =====
-- Every result of `change_threshold` (program/src/instructions/change_threshold.rs), and
-- what an error says.
use multisig_native.Base.{◌≡◌, refl, List}
use multisig_native.Errors.{Result, ok}
use multisig_native.Sdk.{Pubkey, AccountInfo, Store, Runtime}
use multisig_native.Common.Branches.{UnfitThreshold, validate_threshold-cases}
use multisig_native.Common.Writes.{execute_change_threshold_lem}
use multisig_native.Instructions.Accounts.Cases.{accounts2-cases}
use multisig_native.Instructions.Authority.Refused.{
  Returns, too_few, refused, unfit, changed, change-cases,
}
use multisig_native.Instructions.ChangeThreshold.{ChangeThresholdInstruction, change_threshold}
use multisig_native.Instructions.ChangeThreshold.Changed.{
  ThresholdChanged, change_threshold-ThresholdChanged,
}

module _ (rt : Runtime) (program_id : Pubkey) where
  -- Every result of change_threshold: NotEnoughAccountKeys on fewer than two accounts; an error
  -- only for its reason (the multisig is not read or not the program's, the signer is not its
  -- derived address or has not signed, the threshold is zero or more than the number of owners as
  -- a u8); no panic; else success: the account holds the multisig with the new threshold, and
  -- nothing else has changed.
  pub change_threshold-Returns :
      (accounts : List AccountInfo) (ix : ChangeThresholdInstruction) (s : Store)
      → Returns rt program_id accounts s
          (λ m. UnfitThreshold ix.threshold m.owners)
          (ThresholdChanged rt program_id accounts ix.threshold s)
          (change_threshold rt program_id accounts ix s)
  unfolding change_threshold
  change_threshold-Returns accounts ix s =
      let Done : Store → Type 0 = ThresholdChanged rt program_id accounts ix.threshold s in
      let R : Result Store → Type 0 = λ r.
        ((t : Store) → r ≡ ok t → Done t)
        → Returns rt program_id accounts s (λ m. UnfitThreshold ix.threshold m.owners) Done r in
      accounts2-cases rt R accounts _ (λ few done. too_few few)
        (λ ms signer rest given.
          change-cases rt program_id ms signer s R (λ e reason done. refused given reason) _
            λ m may.
              validate_threshold-cases R _ ix.threshold m.owners
                (λ e reason done. unfit given may.holds_multisig reason)
                λ positive reachable.
                  rw (execute_change_threshold_lem rt ms m ix.threshold s may.holds_multisig)
                    (λ done. changed (done _ refl)))
        (λ t h. change_threshold-ThresholdChanged rt program_id accounts ix s t h)
