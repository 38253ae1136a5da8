-- ===== src/Instructions/CreateMultisig/Refused.antt =====
-- Every result of `create_multisig` (program/src/instructions/create_multisig.rs), and what an
-- error says.
use multisig_native.Base.{ℕ, ◌<◌, ◌≡◌, ◌≢◌, refl, ap, List, ◌∷◌, length, arith, ◌==◌, inl, inr}
use multisig_native.Errors.{
  Result, ok, err, custom, ProgramError, incorrect_program_id, invalid_seeds,
  not_enough_account_keys, ◌>>◌, program_error_into, multisig_error_into,
}
use multisig_native.Errors.Branches.{assert_that-cases, Failed, Failed-cases}
use multisig_native.Errors.Unique.{IsUnique, assert_unique_owners_iff, assert_unique_owners-cases}
use multisig_native.Sdk.{Pubkey, AccountInfo, Account, Store, Runtime}
use multisig_native.State.MultisigAccount.{IsMultisig}
use multisig_native.State.Saved.{store_multisig-exact}
use multisig_native.Common.Branches.{validate_pda-cases, UnfitThreshold, validate_threshold-cases}
use multisig_native.Common.{validate_threshold}
use multisig_native.Common.Checks.{IsSigner}
use multisig_native.Instructions.Accounts.Cases.{accounts4-cases}
use multisig_native.Instructions.CreateMultisig.{
  CreateMultisigInstruction, multisig_data, validate, create_multisig,
}
use multisig_native.Instructions.CreateMultisig.Created.{
  Created, make_account, create_multisig-Created,
}

module _ (rt : Runtime) (program_id : Pubkey) where
  pub data Reason (ms signer sys : AccountInfo) (ix : CreateMultisigInstruction)
      : ProgramError → Type 0 where
    other_program : sys.key ≢ rt.system_program → Reason ms signer sys ix incorrect_program_id
    repeated : ¬ IsUnique ix.owners → Reason ms signer sys ix (custom 1)
    unfit_threshold :
        {e : ProgramError} → UnfitThreshold ix.threshold ix.owners e → Reason ms signer sys ix e
    other_signer :
        ¬ IsSigner rt signer ms ix.nonce program_id → Reason ms signer sys ix invalid_seeds

  -- What a call returns.
  pub data Returns (accounts : List AccountInfo) (ix : CreateMultisigInstruction) (s : Store)
      : Result Store → Type 0 where
    too_few : length accounts < 4 → Returns accounts ix s (err not_enough_account_keys)
    refused :
        {ms signer payer sys : AccountInfo} {rest : List AccountInfo} {e : ProgramError}
        → accounts ≡ ms ∷ signer ∷ payer ∷ sys ∷ rest
        → Reason ms signer sys ix e
        → Returns accounts ix s (err e)
    no_rent : {r : Result Store} → Failed rt.rent_get r → Returns accounts ix s r
    -- The system program has not made the account.
    not_made :
        {ms signer payer sys : AccountInfo} {rest : List AccountInfo} {r : Result Store}
        (minimum_balance : ℕ → ℕ)
        → accounts ≡ ms ∷ signer ∷ payer ∷ sys ∷ rest
        → Failed (make_account rt program_id ms payer sys minimum_balance (multisig_data ix) s) r
        → Returns accounts ix s r
    created : {t : Store} → Created rt program_id accounts ix s t → Returns accounts ix s (ok t)

  module _ (ms signer sys : AccountInfo) (ix : CreateMultisigInstruction)
      (P : Result Store → Type 0)
      (fails : (e : ProgramError) → Reason ms signer sys ix e → P (err e)) where
    validate-cases :
        (next : Result Store) → P next → P (validate rt program_id ms signer sys ix >> next)
    unfolding validate validate_threshold
    validate-cases next go =
        let Q : Result Unit → Type 0 = λ r. P (r >> next) in
        assert_that-cases Q (sys.key == rt.system_program) incorrect_program_id _
          (λ f. fails _ (other_program (ground arith)))
          λ _. elim (assert_unique_owners-cases ix.owners) [
            | inr e ↦
                rw e (
                  fails _ (repeated (λ unique. cc ((assert_unique_owners_iff ix.owners).1 unique))))
            | inl distinct ↦ rw distinct (
                validate_threshold-cases Q _ ix.threshold ix.owners
                  (λ e reason. fails e (unfit_threshold reason))
                  λ _ _.
                    validate_pda-cases rt program_id signer ms ix.nonce Q
                      (λ f. fails _ (other_signer f)) λ _. go)
          ]

  -- Every result of create_multisig, with values of their types: NotEnoughAccountKeys on fewer
  -- than four accounts; an error only for its reason (the system program is another one, an owner
  -- stands twice, the threshold is zero or more than the number of owners as a u8, the signer is
  -- not the derived address); the failure of the rent or of the system program; else success: all
  -- checks hold, the account was not in use, and it now is the program's and holds the multisig
  -- that was asked for, and no other account's data or owner has changed.
  pub create_multisig-Returns :
      (accounts : List AccountInfo) (ix : CreateMultisigInstruction) (s : Store)
      → IsMultisig (multisig_data ix)
      → Returns accounts ix s (create_multisig rt program_id accounts ix s)
  unfolding create_multisig
  create_multisig-Returns accounts ix s typed =
      let R : Result Store → Type 0 = λ r.
        ((t : Store) → r ≡ ok t → Created rt program_id accounts ix s t)
        → Returns accounts ix s r in
      accounts4-cases rt R accounts _ (λ few done. too_few few)
        (λ ms signer payer sys rest given.
          validate-cases ms signer sys ix R (λ e reason done. refused given reason) _
            (Failed-cases R rt.rent_get _ (λ r f done. no_rent f)
              λ minimum_balance rent.
                Failed-cases R
                  (make_account rt program_id ms payer sys minimum_balance (multisig_data ix) s) _
                  (λ r f done. not_made minimum_balance given f)
                  λ made e.
                    let (_, _, new) = rt.create_account_new _ _ _ _ _ _ s made e in
                    rw
                      (store_multisig-exact rt ms (multisig_data ix) made
                        (ap (λ (a : Account). a.bytes) new))
                      (λ done. created (done _ refl))))
        (λ t h. create_multisig-Created rt program_id accounts ix s t typed h)
