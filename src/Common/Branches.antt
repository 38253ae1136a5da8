-- ===== src/Common/Branches.antt =====
-- The checks of program/src/instructions/common.rs on their failing branches.
use multisig_native.Base.{
  ℕ, ◌+◌, ◌*◌, ◌%◌, ◌^◌, ◌<◌, ◌≤◌, ◌≡◌, inl, inr, Option-cases, Bool-cases, ◌==◌, ◌&&◌, arith, not,
  List, [], length, is_empty, leb, ltb,
}
use multisig_native.Errors.{
  Result, ok, err, custom, ProgramError, invalid_seeds, not_enough_owners, too_many_owners,
  invalid_threshold, ◌>>◌, program_error_into, multisig_error_into,
}
use multisig_native.Errors.Branches.{assert_that-cases, assert_that-last}
use multisig_native.Errors.Unique.{IsUnique, assert_unique_owners_iff, assert_unique_owners-cases}
use multisig_native.Sdk.{Pubkey, AccountInfo, Runtime}
use multisig_native.State.MultisigAccount.{Multisig}
use multisig_native.Common.{validate_pda, validate_owners, validate_threshold}
use multisig_native.Common.Checks.{IsSigner, AreOwnersFor, validate_owners_iff}

module _ (rt : Runtime) (program_id : Pubkey) (signer ms : AccountInfo) (nonce : ℕ)
    (P : Result (Unit {0}) → Type 0) where
  pub validate_pda-cases :
      (¬ IsSigner rt signer ms nonce program_id → P (err invalid_seeds))
      → (IsSigner rt signer ms nonce program_id → P (ok tt))
      → P (validate_pda rt signer ms nonce program_id)
  unfolding validate_pda
  validate_pda-cases fails go =
      elim (Option-cases
        (rt.create_program_address (record { address = ms.key; nonce = nonce }) program_id)) [
          | inl e ↦ rw e (fails (λ h. cc))
          | inr (address, e) ↦ rw e (
              assert_that-last P (signer.key == address) invalid_seeds
                (λ f. fails (λ h. ground arith)) (λ f. go (ground arith)))
        ]

-- Followed by other statements.
module _ (rt : Runtime) (program_id : Pubkey) (signer ms : AccountInfo) (nonce : ℕ) {A : Type 0}
    (P : Result A → Type 0) (next : Result A) where
  pub validate_pda-then :
      (¬ IsSigner rt signer ms nonce program_id → P (err invalid_seeds))
      → (IsSigner rt signer ms nonce program_id → P next)
      → P (validate_pda rt signer ms nonce program_id >> next)
  validate_pda-then = validate_pda-cases rt program_id signer ms nonce (λ r. P (r >> next))

-- Why owners or a threshold do not suit a multisig.
pub data UnfitOwners (m : Multisig) (owners : List Pubkey) : ProgramError → Type 0 where
  repeated : ¬ IsUnique owners → UnfitOwners m owners (custom 1)
  none_at_all : owners ≡ [] → UnfitOwners m owners (custom 6)
  no_space :
      length m.owners * 32 + length m.padding < length owners * 32 → UnfitOwners m owners (custom 7)

pub data UnfitThreshold (threshold : ℕ) (owners : List Pubkey) : ProgramError → Type 0 where
  zero_threshold : threshold ≡ 0 → UnfitThreshold threshold owners (custom 0)
  out_of_reach : length owners % 2 ^ 8 < threshold → UnfitThreshold threshold owners (custom 0)

module _ {A : Type 0} (P : Result A → Type 0) (next : Result A) where
  pub validate_owners-cases :
      (m : Multisig) (owners : List Pubkey)
      → ((e : ProgramError) → UnfitOwners m owners e → P (err e))
      → (AreOwnersFor m owners → P next)
      → P (validate_owners m owners >> next)
  unfolding validate_owners
  validate_owners-cases m owners fails go = elim (assert_unique_owners-cases owners) [
    | inr e ↦ rw e (fails _ (repeated (λ unique. cc ((assert_unique_owners_iff owners).1 unique))))
    | inl distinct ↦ rw distinct (
        assert_that-cases (λ r. P (r >> next)) (not (is_empty owners)) not_enough_owners _
          (λ f. fails _ (none_at_all (ground arith)))
          λ some_owner.
            assert_that-last (λ r. P (r >> next))
              (leb (length owners * 32) (length m.owners * 32 + length m.padding)) too_many_owners
              (λ f. fails _ (no_space (ground arith)))
              λ fit. go ((validate_owners_iff m owners).0 (rw (distinct, some_owner, fit))))
  ]

  pub validate_threshold-cases :
      (threshold : ℕ) (owners : List Pubkey)
      → ((e : ProgramError) → UnfitThreshold threshold owners e → P (err e))
      → (0 < threshold → threshold ≤ length owners % 2 ^ 8 → P next)
      → P (validate_threshold threshold owners >> next)
  unfolding validate_threshold
  validate_threshold-cases threshold owners fails go =
      assert_that-last (λ r. P (r >> next))
        (ltb 0 threshold && leb threshold (length owners % 2 ^ 8)) invalid_threshold
        (λ f. elim (Bool-cases (ltb 0 threshold)) [
          | inr zero_it ↦ fails _ (zero_threshold (ground arith))
          | inl yes_positive ↦ fails _ (out_of_reach (ground arith))
        ])
        (λ f. go (ground arith) (ground arith))
