-- ===== src/Base/Search.antt =====
-- What `contains` and `position` find, in terms of the positions of a list.
use Prim.Native.Nat.{ℕ, zero, suc, ◌<◌}
use mathlib.Core.Path.{◌≡◌, refl}
use mathlib.Core.Logic.{◌≢◌, inl, inr}
use mathlib.Core.Bool.{true, false}
use mathlib.Core.List.{List, [], ◌∷◌}
use mathlib.Core.Option.{none, some}
use native.Mathlib.Omega.{arith}
use multisig_native.Base.Tests.{◌==◌, Bool-cases, Option-cases}
use multisig_native.Base.Lists.{contains, position, get_elem?, length}

pub contains-get_elem? : (xs : List ℕ) (i a : ℕ) → get_elem? xs i ≡ some a → contains xs a ≡ true
contains-get_elem? [] i a h = cc
contains-get_elem? (x ∷ xs) zero a h = ground arith
contains-get_elem? (x ∷ xs) (suc i) a h = ground (arith, contains-get_elem? xs i a h)

pub contains_index :
    (xs : List ℕ) (a : ℕ) → contains xs a ≡ true → (i : ℕ) × (get_elem? xs i ≡ some a)
contains_index [] a h = cc
contains_index (x ∷ xs) a h = elim (Bool-cases (x == a)) [
  | inl e ↦ (0, ground arith)
  | inr e ↦ let (i, p) = contains_index xs a (ground arith) in (suc i, p)
]

-- The position that is found holds the key.
pub position-some : (xs : List ℕ) (a i : ℕ) → position xs a ≡ some i → get_elem? xs i ≡ some a
unfolding position
position-some [] a i h = cc
position-some (x ∷ xs) a i h = elim (Option-cases (position xs a)) [
  | inl e ↦ ground arith
  | inr (j, e) ↦ ground (arith, position-some xs a j e)
]

pub position-none : (xs : List ℕ) (a : ℕ) → position xs a ≡ none → contains xs a ≡ false
unfolding position
position-none [] a h = refl
position-none (x ∷ xs) a h = ground (arith, position-none xs a)

pub get_elem?-lt {ℓ} :
    {A : Type ℓ} (xs : List A) (i : ℕ) (a : A) → get_elem? xs i ≡ some a → i < length xs
get_elem?-lt [] i a h = cc
get_elem?-lt (x ∷ xs) zero a h = omega arith
get_elem?-lt (x ∷ xs) (suc i) a h = omega (arith, get_elem?-lt xs i a h)

pub contains_nowhere :
    (xs : List ℕ) (a : ℕ) → contains xs a ≡ false → (i : ℕ) → get_elem? xs i ≢ some a
contains_nowhere xs a h i at = cc (contains-get_elem? xs i a at)
