-- ===== src/Instructions/Authority/Refused.antt =====
-- Every result of the three instructions that change a multisig (set_owners.rs,
-- change_threshold.rs and set_owners_and_change_threshold.rs of program/src/instructions).
use multisig_native.Base.{◌<◌, ◌≡◌, ◌≢◌, false, List, ◌∷◌, length, arith, ◌==◌}
use multisig_native.Errors.{
  Result, ok, err, custom, ProgramError, not_enough_account_keys, invalid_seeds, ◌>>=◌, ◌>>◌,
  assert_that, account_owned_by_wrong_program, multisig_signer_not_signer, multisig_error_into,
}
use multisig_native.Errors.Branches.{assert_that-cases, assert_that-last}
use multisig_native.Sdk.{Pubkey, AccountInfo, Store, Runtime}
use multisig_native.State.MultisigAccount.{Multisig, checked_deserialize}
use multisig_native.State.Saved.{HoldsMultisig}
use multisig_native.State.Reads.{multisig-cases}
use multisig_native.Common.{validate_signer}
use multisig_native.Common.Branches.{validate_pda-then}
use multisig_native.Common.Checks.{IsSigner}
use multisig_native.Instructions.Authority.{MayChange}

module _ (rt : Runtime) (program_id : Pubkey) where
  -- Why a change is refused whatever it is.
  pub data Reason (ms signer : AccountInfo) (s : Store) : ProgramError → Type 0 where
    no_multisig : ((m : Multisig) → ¬ HoldsMultisig rt s ms.key m) → Reason ms signer s (custom 18)
    foreign_multisig : (s ms.key).owner ≢ program_id → Reason ms signer s (custom 19)
    other_signer :
        {m : Multisig}
        → HoldsMultisig rt s ms.key m
        → ¬ IsSigner rt signer ms m.nonce program_id
        → Reason ms signer s invalid_seeds
    unsigned : signer.is_signer ≡ false → Reason ms signer s (custom 17)

  -- What a call returns, where `Unfit` is why its arguments do not suit the multisig, and `Done`
  -- what it has done. It does not panic.
  pub data Returns (accounts : List AccountInfo) (s : Store)
      (Unfit : Multisig → ProgramError → Type 0) (Done : Store → Type 0)
      : Result Store → Type 0 where
    too_few : length accounts < 2 → Returns accounts s Unfit Done (err not_enough_account_keys)
    refused :
        {ms signer : AccountInfo} {rest : List AccountInfo} {e : ProgramError}
        → accounts ≡ ms ∷ signer ∷ rest
        → Reason ms signer s e
        → Returns accounts s Unfit Done (err e)
    unfit :
        {ms signer : AccountInfo} {rest : List AccountInfo} {m : Multisig} {e : ProgramError}
        → accounts ≡ ms ∷ signer ∷ rest
        → HoldsMultisig rt s ms.key m
        → Unfit m e
        → Returns accounts s Unfit Done (err e)
    changed : {t : Store} → Done t → Returns accounts s Unfit Done (ok t)

  module _ (ms signer : AccountInfo) (s : Store) {A : Type 0} (P : Result A → Type 0)
      (fails : (e : ProgramError) → Reason ms signer s e → P (err e)) where
    pub change-cases :
        (change : Multisig → Result A)
        → ((m : Multisig) → MayChange rt program_id ms signer m s → P (change m))
        → P (do
          multisig_data ← checked_deserialize rt.borsh (s ms.key).bytes
          assert_that (program_id == (s ms.key).owner) account_owned_by_wrong_program
          validate_signer rt signer ms multisig_data program_id
          change multisig_data)
    unfolding validate_signer
    change-cases change go =
        multisig-cases rt P s ms.key _ (λ f. fails _ (no_multisig f))
          λ m hm.
            assert_that-cases P (program_id == (s ms.key).owner) account_owned_by_wrong_program _
              (λ f. fails _ (foreign_multisig (ground arith)))
              λ own.
                validate_pda-then rt program_id signer ms m.nonce (λ r. P (r >> change m)) _
                  (λ f. fails _ (other_signer hm f))
                  λ derived.
                    assert_that-last (λ r. P (r >> change m)) signer.is_signer
                      multisig_signer_not_signer (λ f. fails _ (unsigned f))
                      λ signed. go m (record {
                        holds_multisig = hm;
                        multisig_owned = ground arith;
                        signer = derived;
                        signed = signed;
                      })
