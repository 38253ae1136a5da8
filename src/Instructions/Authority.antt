-- ===== src/Instructions/Authority.antt =====
-- Who may change a multisig: what program/src/instructions/set_owners.rs, change_threshold.rs and
-- set_owners_and_change_threshold.rs check first.
pub mod Refused
use multisig_native.Base.{◌≡◌, true, ◌==◌, arith}
use multisig_native.Errors.{
  Result, ok, ◌>>=◌, ◌>>◌, bind_ok, assert_that, account_owned_by_wrong_program,
  multisig_error_into,
}
use multisig_native.Sdk.{Pubkey, AccountInfo, Store, Runtime}
use multisig_native.State.MultisigAccount.{Multisig, checked_deserialize}
use multisig_native.State.Saved.{HoldsMultisig}
use multisig_native.Common.{validate_signer}
use multisig_native.Common.Checks.{IsSigner, validate_signer_iff}

-- The multisig account is the program's, and the multisig's own address has signed.
pub record MayChange (rt : Runtime) (program_id : Pubkey)
    (multisig_account multisig_signer : AccountInfo) (multisig : Multisig) (s : Store)
    : Type 0 where
  pub holds_multisig : HoldsMultisig rt s multisig_account.key multisig
  pub multisig_owned : (s multisig_account.key).owner ≡ program_id
  pub signer : IsSigner rt multisig_signer multisig_account multisig.nonce program_id
  pub signed : multisig_signer.is_signer ≡ true

module _ {ℓ} (rt : Runtime) (program_id : Pubkey) (multisig_account multisig_signer : AccountInfo)
    (s : Store) {A : Type 0} {P : Type ℓ} where
  -- An instruction that gets past those checks.
  pub change-ok :
      (change : Multisig → Result A) {r : A}
      → (do
        multisig_data ← checked_deserialize rt.borsh (s multisig_account.key).bytes
        assert_that (program_id == (s multisig_account.key).owner) account_owned_by_wrong_program
        validate_signer rt multisig_signer multisig_account multisig_data program_id
        change multisig_data)
        ≡ ok r
      → ((m : Multisig)
          → MayChange rt program_id multisig_account multisig_signer m s
          → change m ≡ ok r
          → P)
      → P
  change-ok change h go =
      bind_ok (checked_deserialize rt.borsh (s multisig_account.key).bytes) _ h λ m hm h₁.
        bind_ok
          (assert_that (program_id == (s multisig_account.key).owner)
            account_owned_by_wrong_program)
          _ h₁
          λ _ own h₂.
            bind_ok (validate_signer rt multisig_signer multisig_account m program_id) _ h₂
              λ _ signed h₃.
                let (signer, is_signer) =
                  (validate_signer_iff rt multisig_signer multisig_account m program_id).0 signed in
                go m
                  (record {
                    holds_multisig = hm;
                    multisig_owned = ground arith;
                    signer = signer;
                    signed = is_signer;
                  })
                  h₃
