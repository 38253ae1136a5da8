-- ===== src/Errors/Branches.antt =====
-- Both branches of the assertions of program/src/errors.rs, for a goal about what is returned.
use multisig_native.Base.{◌≡◌, refl, Bool, true, false, Option, none, some, ◌⊎◌, inl, inr}
use multisig_native.Errors.{
  Result, ok, err, panicked, ProgramError, ◌>>=◌, ◌>>◌, Into, log, assert_that, assert_present,
  assert_success,
}

pub Result-cases :
    {A : Type 0} (r : Result A)
    → (r ≡ panicked) ⊎ ((e : ProgramError) × (r ≡ err e)) ⊎ ((a : A) × (r ≡ ok a))
Result-cases panicked = inl refl
Result-cases (err e) = inr (inl (e, refl))
Result-cases (ok a) = inr (inr (a, refl))

module _ {E : Type 0} ⦃i : Into E⦄ {A : Type 0} (P : Result A → Type 0) where
  pub assert_that-cases :
      (condition : Bool) (error : E) (next : Result A)
      → (condition ≡ false → P (err (log error)))
      → (condition ≡ true → P next)
      → P (assert_that condition error >> next)
  assert_that-cases true error next fails passes = passes refl
  assert_that-cases false error next fails passes = fails refl

  pub assert_present-cases :
      {T : Type 0} (value : Option T) (error : E) (next : T → Result A)
      → (value ≡ none → P (err (log error)))
      → ((v : T) → value ≡ some v → P (next v))
      → P (assert_present value error >>= next)
  assert_present-cases none error next fails passes = fails refl
  assert_present-cases (some v) error next fails passes = passes v refl

  pub assert_success-cases :
      {T : Type 0} (value : Option T) (error : E) (next : T → Result A)
      → (value ≡ none → P (err (log error)))
      → ((v : T) → value ≡ some v → P (next v))
      → P (assert_success value error >>= next)
  assert_success-cases none error next fails passes = fails refl
  assert_success-cases (some v) error next fails passes = passes v refl

-- So too for an assertion that is the last statement of a function.
module _ {E : Type 0} ⦃i : Into E⦄ (P : Result (Unit {0}) → Type 0) where
  pub assert_that-last :
      (condition : Bool) (error : E)
      → (condition ≡ false → P (err (log error)))
      → (condition ≡ true → P (ok tt))
      → P (assert_that condition error)
  assert_that-last true error fails passes = passes refl
  assert_that-last false error fails passes = fails refl

-- A call that does not return a value ends its caller in the same way.
pub data Failed {T A : Type 0} (first : Result T) : Result A → Type 0 where
  with_error : {e : ProgramError} → first ≡ err e → Failed first (err e)
  with_panic : first ≡ panicked → Failed first panicked

pub Failed-cases :
    {T A : Type 0} (P : Result A → Type 0) (first : Result T) (next : T → Result A)
    → ((r : Result A) → Failed first r → P r)
    → ((v : T) → first ≡ ok v → P (next v))
    → P (first >>= next)
Failed-cases P panicked next fails passes = fails panicked (with_panic refl)
Failed-cases P (err e) next fails passes = fails (err e) (with_error refl)
Failed-cases P (ok v) next fails passes = passes v refl
