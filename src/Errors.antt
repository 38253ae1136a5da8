-- ===== src/Errors.antt =====
-- program/src/errors.rs: the program's error codes and its assertions. `msg!` writes to the
-- log only, so `log` is the conversion of the error.
mod Outcome
pub mod Unique
pub mod Branches
pub use Outcome.*
use multisig_native.Base.{
  ℕ, Bool, true, false, not, List, [], ◌∷◌, Option, none, some, contains, if◌then◌else◌,
}

-- The source's variants, in its order.
pub data MultisigError : Type 0 where
  invalid_threshold unique_owners invalid_owner proposer_not_signer : MultisigError
  missing_instructions invalid_owner_set_sequence_number not_enough_owners : MultisigError
  too_many_owners invalid_executor immutable_transaction_account : MultisigError
  invalid_transaction_account invalid_refundee_account immutable_refundee_account : MultisigError
  not_enough_signers account_close_failure malformed_transaction_account : MultisigError
  approver_not_signer multisig_signer_not_signer malformed_multisig_account : MultisigError
  account_owned_by_wrong_program : MultisigError

-- `e as u32`: the position of the variant.
abbrev pub discriminant : MultisigError → ℕ
discriminant invalid_threshold = 0
discriminant unique_owners = 1
discriminant invalid_owner = 2
discriminant proposer_not_signer = 3
discriminant missing_instructions = 4
discriminant invalid_owner_set_sequence_number = 5
discriminant not_enough_owners = 6
discriminant too_many_owners = 7
discriminant invalid_executor = 8
discriminant immutable_transaction_account = 9
discriminant invalid_transaction_account = 10
discriminant invalid_refundee_account = 11
discriminant immutable_refundee_account = 12
discriminant not_enough_signers = 13
discriminant account_close_failure = 14
discriminant malformed_transaction_account = 15
discriminant approver_not_signer = 16
discriminant multisig_signer_not_signer = 17
discriminant malformed_multisig_account = 18
discriminant account_owned_by_wrong_program = 19

-- `impl From<MultisigError> for ProgramError`
abbrev pub from_multisig_error : MultisigError → ProgramError
from_multisig_error e = custom (discriminant e)

-- `Into<ProgramError>`
pub record Into (E : Type 0) : Type 0 where
  pub into : E → ProgramError

instance abbrev pub multisig_error_into : Into MultisigError
multisig_error_into = record { into = from_multisig_error }

instance abbrev pub program_error_into : Into ProgramError
program_error_into = record { into = λ e. e }

module _ {E : Type 0} ⦃i : Into E⦄ where
  -- The message goes to the log; what is returned is the converted error.
  abbrev pub log : E → ProgramError
  log error = i.into error

  -- The caller's `Result<T, E>` has an error that is dropped, so it comes as an `Option`.
  abbrev pub assert_success : {T : Type 0} → Option T → E → Result T
  assert_success (some v) error = ok v
  assert_success none error = err (log error)

  abbrev pub assert_present : {T : Type 0} → Option T → E → Result T
  assert_present (some v) error = ok v
  assert_present none error = err (log error)

  abbrev pub assert_that : Bool → E → ProgramResult
  assert_that true error = ok tt
  assert_that false error = err (log error)

-- The loop's rest of the list at owner `i` is `owners.iter().skip(i + 1)`.
unfoldable pub assert_unique_owners : List ℕ → ProgramResult
assert_unique_owners [] = ok tt
assert_unique_owners (owner ∷ owners) =
    assert_that (not (contains owners owner)) unique_owners >> assert_unique_owners owners
