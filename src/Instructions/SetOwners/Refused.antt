-- ===== src/Instructions/SetOwners/Refused.antt =====
-- Every result of `set_owners` (program/src/instructions/set_owners.rs), and
-- what an error says.
use multisig_native.Base.{◌≤◌, ◌≡◌, refl, List, length}
use multisig_native.Errors.{Result, ok}
use multisig_native.Sdk.{Pubkey, AccountInfo, Store, Runtime, IsKey, IsVec}
use multisig_native.Common.Branches.{UnfitOwners, validate_owners-cases}
use multisig_native.Common.Writes.{max_data_length, execute_set_owners_lem}
use multisig_native.Instructions.Accounts.Cases.{accounts2-cases}
use multisig_native.Instructions.Authority.Refused.{
  Returns, too_few, refused, unfit, changed, change-cases,
}
use multisig_native.Instructions.SetOwners.{SetOwnersInstruction, set_owners}
use multisig_native.Instructions.SetOwners.Changed.{OwnersChanged, set_owners-OwnersChanged}

module _ (rt : Runtime) (program_id : Pubkey) where
  -- Every result of set_owners: NotEnoughAccountKeys on fewer than two accounts; an error only
  -- for its reason (the multisig is not read or not the program's, the signer is not its derived
  -- address or has not signed, a new owner stands twice, there is none, or they do not fit); no
  -- panic; else success: the account holds the multisig with the new owners, and nothing else has
  -- changed. The new owners are keys, and no account is larger than the runtime allows.
  pub set_owners-Returns :
      (accounts : List AccountInfo) (ix : SetOwnersInstruction) (s : Store)
      → ((k : Pubkey) → length (s k).bytes ≤ max_data_length)
      → IsVec IsKey ix.owners
      → Returns rt program_id accounts s
          (λ m. UnfitOwners m ix.owners)
          (OwnersChanged rt program_id accounts ix.owners s)
          (set_owners rt program_id accounts ix s)
  unfolding set_owners
  set_owners-Returns accounts ix s sizes keys =
      let Done : Store → Type 0 = OwnersChanged rt program_id accounts ix.owners s in
      let R : Result Store → Type 0 = λ r.
        ((t : Store) → r ≡ ok t → Done t)
        → Returns rt program_id accounts s (λ m. UnfitOwners m ix.owners) Done r in
      accounts2-cases rt R accounts _ (λ few done. too_few few)
        (λ ms signer rest given.
          change-cases rt program_id ms signer s R (λ e reason done. refused given reason) _
            λ m may.
              validate_owners-cases R _ m ix.owners
                (λ e reason done. unfit given may.holds_multisig reason)
                λ suitable.
                  rw (execute_set_owners_lem rt ms m ix.owners s may.holds_multisig suitable.space)
                    (λ done. changed (done _ refl)))
        (λ t h. set_owners-OwnersChanged rt program_id accounts ix s t sizes keys h)
