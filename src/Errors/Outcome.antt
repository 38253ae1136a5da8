-- ===== src/Errors/Outcome.antt =====
-- What an instruction returns: a value, a `ProgramError`, or a panic. A failed instruction
-- has no effect on the accounts (the runtime drops its writes), so an error carries no state.
use multisig_native.Base.{ℕ, ◌≡◌, refl, Option, some, none, List, length, set, ltb, if◌then◌else◌}

-- The variants of the SDK's `ProgramError` that the program names or passes on; `other` stands
-- for the codes that a callee may return.
pub data ProgramError : Type 0 where
  custom : ℕ → ProgramError
  incorrect_program_id invalid_seeds invalid_instruction_data : ProgramError
  not_enough_account_keys borsh_io_error : ProgramError
  other : ℕ → ProgramError

-- A call panics, or it returns.
pub data Result (A : Type 0) : Type 0 where
  panicked : Result A
  ok : A → Result A
  err : ProgramError → Result A

abbrev pub ProgramResult : Type 0
ProgramResult = Result (Unit {0})

-- The `?` operator: what follows a call that failed is not run.
infixl 5 ◌>>=◌ ◌>>◌
abbrev pub ◌>>=◌ : {A B : Type 0} → Result A → (A → Result B) → Result B
panicked >>= next = panicked
err error >>= next = err error
ok value >>= next = next value

abbrev pub ◌>>◌ : {A B : Type 0} → Result A → Result B → Result B
checked >> next = checked >>= λ unused. next

pub ok-injective : {A : Type 0} {a b : A} → ok a ≡ ok b → a ≡ b
ok-injective h = cc

-- What a sequence of calls that succeeded has done first, for a goal `P`: the names of the
-- value and of the equations are given where it is used.
pub bind_ok {ℓ} :
    {A B : Type 0} {P : Type ℓ} (first : Result A) (next : A → Result B) {final : B}
    → first >>= next ≡ ok final
    → ((value : A) → first ≡ ok value → next value ≡ ok final → P)
    → P
bind_ok panicked next h go = absurd (cc h)
bind_ok (err error) next h go = absurd (cc h)
bind_ok (ok value) next h go = go value refl h

-- `Option::ok_or(error)?`; so too `map_err` where the error that there was is dropped.
abbrev pub ok_or : {A : Type 0} → Option A → ProgramError → Result A
ok_or (some a) e = ok a
ok_or none e = err e

-- `items[i] = value`, which panics out of bounds.
abbrev pub set_item : {A : Type 0} → List A → ℕ → A → Result (List A)
set_item items i value = if ltb i (length items) then ok (set items i value) else panicked
