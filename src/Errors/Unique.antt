-- ===== src/Errors/Unique.antt =====
-- What `assert_unique_owners` of program/src/errors.rs checks.
use multisig_native.Base.{
  ℕ, zero, suc, ◌≡◌, refl, ap, inl, inr, ◌↔◌, ◌⊎◌, List, [], ◌∷◌, some, contains, get_elem?, arith,
  Bool-cases, contains-get_elem?, contains_index,
}
use multisig_native.Errors.{ok, err, custom, assert_unique_owners}

-- No two positions hold the same key.
abbrev pub IsUnique : List ℕ → Type 0
IsUnique xs = (i j a : ℕ) → get_elem? xs i ≡ some a → get_elem? xs j ≡ some a → i ≡ j

assert_unique_owners_sound : (xs : List ℕ) → assert_unique_owners xs ≡ ok tt → IsUnique xs
unfolding assert_unique_owners
assert_unique_owners_sound [] h i j a p q = cc
assert_unique_owners_sound (x ∷ xs) h zero zero a p q = refl
assert_unique_owners_sound (x ∷ xs) h zero (suc j) a p q =
    ground (arith, contains-get_elem? xs j a q)
assert_unique_owners_sound (x ∷ xs) h (suc i) zero a p q =
    ground (arith, contains-get_elem? xs i a p)
assert_unique_owners_sound (x ∷ xs) h (suc i) (suc j) a p q =
    ap suc (assert_unique_owners_sound xs (ground arith) i j a p q)

assert_unique_owners_complete : (xs : List ℕ) → IsUnique xs → assert_unique_owners xs ≡ ok tt
unfolding assert_unique_owners
assert_unique_owners_complete [] u = refl
assert_unique_owners_complete (x ∷ xs) u = elim (Bool-cases (contains xs x)) [
  | inl found ↦
      let (i, p) = contains_index xs x found in absurd (omega (arith, u 0 (suc i) x refl p))
  | inr fresh ↦
      rw fresh
        (assert_unique_owners_complete xs (λ i j a p q. omega (arith, u (suc i) (suc j) a p q)))
]

-- The check on the owners passes exactly when no key stands at two positions.
pub assert_unique_owners_iff : (xs : List ℕ) → (assert_unique_owners xs ≡ ok tt) ↔ IsUnique xs
assert_unique_owners_iff xs = (assert_unique_owners_sound xs, assert_unique_owners_complete xs)

-- The check passes, or it fails with `UniqueOwners`.
pub assert_unique_owners-cases :
    (xs : List ℕ) → (assert_unique_owners xs ≡ ok tt) ⊎ (assert_unique_owners xs ≡ err (custom 1))
unfolding assert_unique_owners
assert_unique_owners-cases [] = inl refl
assert_unique_owners-cases (x ∷ xs) = ground (arith, assert_unique_owners-cases xs)
