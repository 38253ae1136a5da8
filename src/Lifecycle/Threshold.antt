-- ===== src/Lifecycle/Threshold.antt =====
-- The threshold after a change of owners (`execute_set_owners` of
-- program/src/instructions/common.rs), where the number of owners is taken as a `u8`.
use multisig_native.Base.{◌%◌, ◌^◌, ◌<◌, ◌≤◌, ◌≡◌, List, ◌∷◌, length, ◌≢◌}
use multisig_native.Errors.{ok}
use multisig_native.Sdk.{Pubkey, AccountInfo, Store, Runtime, IsKey, IsVec}
use multisig_native.State.MultisigAccount.{Multisig}
use multisig_native.State.Stored.{multisig_bytes}
use multisig_native.State.Saved.{HoldsMultisig, with_bytes, with_bytes-HoldsMultisig}
use multisig_native.Common.{with_owners}
use multisig_native.Common.Checks.{AreOwnersFor}
use multisig_native.Common.Valid.{IsValid, with_owners-IsValid, threshold-with_owners_zero}
use multisig_native.Common.Writes.{max_data_length, with_owners-stored}
use multisig_native.Instructions.Authority.{MayChange}
use multisig_native.Instructions.SetOwners.{SetOwnersInstruction, set_owners}
use multisig_native.Instructions.SetOwners.Changed.{set_owners_succeeds}

module _ (rt : Runtime) (program_id : Pubkey) (ms signer : AccountInfo) (rest : List AccountInfo)
    (ix : SetOwnersInstruction) (m : Multisig) (s : Store)
    (may : MayChange rt program_id ms signer m s) (suitable : AreOwnersFor m ix.owners)
    (keys : IsVec IsKey ix.owners) (size : length (s ms.key).bytes ≤ max_data_length) where
  -- What `set_owners` leaves, for owners that it accepts.
  set_owners_holds :
      (t : Store) × (set_owners rt program_id (ms ∷ signer ∷ rest) ix s ≡ ok t)
      × HoldsMultisig rt t ms.key (with_owners m ix.owners)
  set_owners_holds =
      let new = with_owners m ix.owners in
      (
        with_bytes s ms.key (multisig_bytes rt.borsh new),
        set_owners_succeeds rt program_id ms signer rest ix m s may suitable,
        with_bytes-HoldsMultisig rt s ms.key new (
            with_owners-stored rt ms.key m ix.owners s may.holds_multisig suitable.space size keys),
      )

  -- A set_owners call that has the signature and suitable owners, whose number is not a multiple
  -- of 256, succeeds and leaves a well-formed multisig well formed: distinct owners, and a
  -- positive threshold of at most their number. The new owners are keys, and the account is not
  -- larger than the runtime allows.
  pub set_owners-IsValid :
      IsValid m
      → length ix.owners % 2 ^ 8 ≢ 0
      → (t : Store) × (set_owners rt program_id (ms ∷ signer ∷ rest) ix s ≡ ok t)
        × HoldsMultisig rt t ms.key (with_owners m ix.owners)
        × IsValid (with_owners m ix.owners)
  set_owners-IsValid valid some_left =
      let (t, run, holds) = set_owners_holds in
      (t, run, holds, with_owners-IsValid m ix.owners valid suitable some_left)

  -- A set_owners call that has the signature and suitable owners, whose number is a multiple of
  -- 256, succeeds and leaves a multisig of positive threshold with threshold zero. The new owners
  -- are keys, and the account is not larger than the runtime allows.
  pub set_owners_zero_threshold :
      0 < m.threshold
      → length ix.owners % 2 ^ 8 ≡ 0
      → (t : Store) × (set_owners rt program_id (ms ∷ signer ∷ rest) ix s ≡ ok t)
        × HoldsMultisig rt t ms.key (with_owners m ix.owners)
        × ((with_owners m ix.owners).threshold ≡ 0)
  set_owners_zero_threshold positive multiple =
      let (t, run, holds) = set_owners_holds in
      (t, run, holds, (threshold-with_owners_zero m ix.owners positive).1 multiple)
