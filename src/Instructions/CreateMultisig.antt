-- ===== src/Instructions/CreateMultisig.antt =====
-- program/src/instructions/create_multisig.rs
pub mod Created
pub mod Refused
use multisig_native.Base.{ℕ, ◌&&◌, List, [], ◌∷◌, ltb, leb, ◌==◌}
use multisig_native.Errors.{
  Result, ◌>>=◌, ◌>>◌, ProgramResult, incorrect_program_id, invalid_threshold, multisig_error_into,
  program_error_into, assert_that, assert_unique_owners,
}
use multisig_native.Sdk.{Pubkey, AccountInfo, Store, Runtime}
use multisig_native.State.MultisigAccount.{Multisig, len}
use multisig_native.Instructions.Accounts.{accounts4}
use multisig_native.Common.{len_u8, validate_pda}
use multisig_native.State.Save.{store_multisig}

pub record CreateMultisigInstruction : Type 0 where
  pub owners : List Pubkey
  pub threshold : ℕ
  pub nonce : ℕ

-- The multisig that the instruction asks for.
abbrev pub multisig_data : CreateMultisigInstruction → Multisig
multisig_data instruction = record {
  owners = instruction.owners;
  threshold = instruction.threshold;
  nonce = instruction.nonce;
  owner_set_seqno = 0;
  padding = [];
}

module _ (rt : Runtime) where
  unfoldable pub validate :
      Pubkey → AccountInfo → AccountInfo → AccountInfo → CreateMultisigInstruction → ProgramResult
  validate program_id multisig multisig_signer system_program instruction = do
    assert_that (system_program.key == rt.system_program) incorrect_program_id
    assert_unique_owners instruction.owners
    assert_that
        (ltb 0 instruction.threshold && leb instruction.threshold (len_u8 instruction.owners))
        invalid_threshold
    validate_pda rt multisig_signer multisig instruction.nonce program_id

  unfoldable pub create_multisig :
      Pubkey → List AccountInfo → CreateMultisigInstruction → Store → Result Store
  create_multisig program_id accounts instruction s =
      accounts4 rt accounts λ multisig_account multisig_signer payer system_program. do
        validate program_id multisig_account multisig_signer system_program instruction
        let m = multisig_data instruction
        minimum_balance ← rt.rent_get
        created ←
            rt.invoke
              (rt.create_account payer.key multisig_account.key (minimum_balance (len m)) (len m)
                program_id)
              (payer ∷ multisig_account ∷ system_program ∷ []) s
        store_multisig rt multisig_account m created
