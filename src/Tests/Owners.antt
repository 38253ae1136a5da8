-- ===== src/Tests/Owners.antt =====
-- The theorems about changes of owners that succeed, also to a multiple of 256 owners.
use multisig_native.Base.{
  ℕ, suc, ◌^◌, ◌≡◌, ◌<◌, ◌≤◌, refl, true, false, List, [], ◌∷◌, length, replicate, ◌+◌, zero, arith,
  length-replicate, All, All-replicate,
}
use multisig_native.Errors.{ok}
use multisig_native.Errors.Unique.{assert_unique_owners_iff}
use multisig_native.Sdk.{IsKey, IsU8, Pubkey, Store}
use multisig_native.State.MultisigAccount.{Multisig, IsMultisig, len}
use multisig_native.State.Stored.{multisig_bytes, multisig_stored}
use multisig_native.State.Saved.{HoldsMultisig, with_bytes, with_bytes-HoldsMultisig}
use multisig_native.Common.{with_threshold, with_owners}
use multisig_native.Common.Checks.{AreOwnersFor}
use multisig_native.Common.Valid.{IsValid}
use multisig_native.Instructions.Authority.{MayChange}
use multisig_native.Instructions.SetOwners.{SetOwnersInstruction, set_owners}
use multisig_native.Instructions.SetOwners.Changed.{set_owners_succeeds}
use multisig_native.Common.Writes.{max_data_length}
use multisig_native.Instructions.ChangeThreshold.{ChangeThresholdInstruction, change_threshold}
use multisig_native.Instructions.ChangeThreshold.Changed.{change_threshold_succeeds}
use multisig_native.Instructions.SetOwnersAndChangeThreshold.{
  SetOwnersAndChangeThresholdInstruction, set_owners_and_change_threshold,
}
use multisig_native.Instructions.SetOwnersAndChangeThreshold.Changed.{
  changed, set_owners_and_change_threshold_succeeds,
}
use multisig_native.Lifecycle.Threshold.{set_owners_zero_threshold}
use multisig_native.Tests.Machine.{borsh, machine}
use multisig_native.Tests.Scenario.{
  vault, vault_signer, program, program_id, result, account, proposed,
}
use multisig_native.Tests.Calls.{proposed_sizes, three_owners}

change-MayChange :
    MayChange machine program_id
      (account vault false)
      (account vault_signer true)
      three_owners
      proposed
unfolding program proposed
change-MayChange = record {
  holds_multisig = refl;
  multisig_owned = refl;
  signer = refl;
  signed = refl;
}

abbrev two_owners : SetOwnersInstruction
two_owners = record { owners = 2 ∷ 3 ∷ [] }

two_owners-AreOwnersFor : AreOwnersFor three_owners two_owners.owners
unfolding program
two_owners-AreOwnersFor = record {
  unique = (assert_unique_owners_iff two_owners.owners).0 refl;
  nonempty = omega arith;
  space = omega arith;
}

set_owners_succeeds_example :
    set_owners machine program_id
      (account vault false ∷ account vault_signer true ∷ [])
      two_owners
      proposed
    ≡ ok (with_bytes proposed vault (multisig_bytes borsh (with_owners three_owners (2 ∷ 3 ∷ []))))
set_owners_succeeds_example =
    set_owners_succeeds machine program_id (account vault false) (account vault_signer true) []
      two_owners three_owners proposed change-MayChange two_owners-AreOwnersFor

pub three_owners-IsValid : IsValid three_owners
unfolding program
three_owners-IsValid = record {
  unique = (assert_unique_owners_iff three_owners.owners).0 refl;
  positive = omega arith;
  reachable = omega arith;
}

-- A multisig of one owner, with room for 256, that it then gets.
abbrev keys_from : ℕ → ℕ → List Pubkey
keys_from first zero = []
keys_from first (suc n) = first ∷ keys_from (suc first) n

keys_from-IsKey : (first n : ℕ) → first + n < 2 ^ 256 → All IsKey (keys_from first n)
keys_from-IsKey first zero h = tt
keys_from-IsKey first (suc n) h = (omega arith, keys_from-IsKey (suc first) n (omega arith))

abbrev roomy : Multisig
roomy = record {
  owners = 1 ∷ [];
  threshold = 1;
  nonce = 255;
  owner_set_seqno = 0;
  padding = replicate 8160 0;
}

roomy-IsMultisig : IsMultisig roomy
roomy-IsMultisig = record {
  owners_fit = (omega arith, (omega arith, tt));
  threshold_fits = omega arith;
  nonce_fits = omega arith;
  seqno_fits = omega arith;
  padding_fits =
      (omega (arith, length-replicate {0} {A = ℕ} 8160 0), All-replicate IsU8 8160 0 (omega arith));
}

abbrev many_owners : SetOwnersInstruction
many_owners = record { owners = keys_from 1 256 }

many_owners-AreOwnersFor : AreOwnersFor roomy many_owners.owners
unfolding program
many_owners-AreOwnersFor = record {
  unique = (assert_unique_owners_iff (keys_from 1 256)).0 refl;
  nonempty = omega arith;
  space = omega (arith, length-replicate {0} {A = ℕ} 8160 0);
}

with_room : Store
with_room = with_bytes proposed vault (multisig_bytes borsh roomy)

with_room-HoldsMultisig : HoldsMultisig machine with_room vault roomy
unfolding with_room
with_room-HoldsMultisig = with_bytes-HoldsMultisig machine proposed vault roomy roomy-IsMultisig

roomy-MayChange :
    MayChange machine program_id (account vault false) (account vault_signer true) roomy with_room
unfolding with_room program proposed
roomy-MayChange = record {
  holds_multisig = with_room-HoldsMultisig;
  multisig_owned = refl;
  signer = refl;
  signed = refl;
}

with_room_size : length (with_room vault).bytes ≤ max_data_length
unfolding len
with_room_size = omega (
  arith,
  (multisig_stored borsh _ roomy with_room-HoldsMultisig).1,
  length-replicate {0} {A = ℕ} 8160 0,
)

set_owners_zero_threshold_example :
    (t : Store) × (set_owners machine program_id
        (account vault false ∷ account vault_signer true ∷ [])
        many_owners
        with_room
      ≡ ok t)
    × HoldsMultisig machine t vault (with_owners roomy (keys_from 1 256))
    × ((with_owners roomy (keys_from 1 256)).threshold ≡ 0)
set_owners_zero_threshold_example =
    set_owners_zero_threshold machine program_id (account vault false) (account vault_signer true)
      [] many_owners roomy with_room roomy-MayChange many_owners-AreOwnersFor
      (omega arith, keys_from-IsKey 1 256 (omega arith)) with_room_size (omega arith) (omega arith)

abbrev all_sign : ChangeThresholdInstruction
all_sign = record { threshold = 3 }

change_threshold_succeeds_example :
    change_threshold machine program_id
      (account vault false ∷ account vault_signer true ∷ [])
      all_sign
      proposed
    ≡ ok (with_bytes proposed vault (multisig_bytes borsh (with_threshold three_owners 3)))
change_threshold_succeeds_example =
    change_threshold_succeeds machine program_id (account vault false) (account vault_signer true)
      [] all_sign three_owners proposed change-MayChange (omega arith) (omega arith)

two_left : Store
unfolding program proposed
two_left = result proposed (
    set_owners machine program_id (account vault false ∷ account vault_signer true ∷ []) two_owners
      proposed)

abbrev both_sign : SetOwnersAndChangeThresholdInstruction
both_sign = record { owners = 2 ∷ 3 ∷ []; threshold = 2 }

set_owners_and_change_threshold_succeeds_example :
    set_owners_and_change_threshold machine program_id
      (account vault false ∷ account vault_signer true ∷ [])
      both_sign
      proposed
    ≡ ok (
        with_bytes
          (with_bytes proposed vault (multisig_bytes borsh (with_owners three_owners (2 ∷ 3 ∷ []))))
          vault
          (multisig_bytes borsh (changed three_owners both_sign)))
set_owners_and_change_threshold_succeeds_example =
    set_owners_and_change_threshold_succeeds machine program_id (account vault false)
      (account vault_signer true) [] both_sign three_owners proposed change-MayChange
      two_owners-AreOwnersFor (omega arith) (omega arith)
      (omega arith, (omega arith, (omega arith, tt))) (proposed_sizes vault)
