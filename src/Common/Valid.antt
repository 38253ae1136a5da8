-- ===== src/Common/Valid.antt =====
-- When a multisig is well formed, and what the changes of owners and threshold in
-- program/src/instructions/common.rs make of that.
use multisig_native.Base.{◌%◌, ◌^◌, ◌≤◌, ◌<◌, ◌≡◌, ◌≢◌, ◌↔◌, List, length, arith}
use multisig_native.Errors.Unique.{IsUnique}
use multisig_native.Sdk.{Pubkey}
use multisig_native.State.MultisigAccount.{Multisig}
use multisig_native.Common.{with_owners}
use multisig_native.Common.Checks.{AreOwnersFor}

-- The owners are distinct, and some number of them, but not none, is required to sign.
pub record IsValid (m : Multisig) : Type 0 where
  pub unique : IsUnique m.owners
  pub positive : 0 < m.threshold
  pub reachable : m.threshold ≤ length m.owners

-- New owners that pass the checks keep a multisig well formed, unless their number is a
-- multiple of 256.
pub with_owners-IsValid :
    (m : Multisig) (owners : List Pubkey)
    → IsValid m
    → AreOwnersFor m owners
    → length owners % 2 ^ 8 ≢ 0
    → IsValid (with_owners m owners)
unfolding with_owners
with_owners-IsValid m owners v new some_left = record {
  unique = new.unique;
  positive = ground arith;
  reachable = ground arith;
}

-- A change of owners sets a positive threshold to zero exactly if the number of new owners is a
-- multiple of 256.
pub threshold-with_owners_zero :
    (m : Multisig) (owners : List Pubkey)
    → 0 < m.threshold
    → ((with_owners m owners).threshold ≡ 0) ↔ (length owners % 2 ^ 8 ≡ 0)
unfolding with_owners
threshold-with_owners_zero m owners positive = ground arith
