-- ===== src/Common.antt =====
-- program/src/instructions/common.rs: the checks and the writes that the instructions share.
-- A `u8`, `u32` or `usize` operation wraps around, as in the release build that is deployed;
-- sizes of data in memory are too small for that, except where the code subtracts them.
pub mod Close
pub mod Padding
pub mod Checks
pub mod Branches
pub mod Writes
pub mod Valid
use multisig_native.Base.{
  ℕ, ◌+◌, ◌-◌, ◌*◌, ◌%◌, ◌^◌, not, ◌&&◌, List, Option, none, some, length, is_empty, replicate, ltb,
  leb, ◌==◌, if◌then◌else◌,
}
use multisig_native.Errors.{
  Result, ok, ◌>>=◌, ◌>>◌, ProgramResult, ok_or, invalid_seeds, invalid_threshold,
  not_enough_owners, too_many_owners, account_close_failure, multisig_signer_not_signer,
  from_multisig_error, multisig_error_into, program_error_into, assert_that, assert_unique_owners,
}
use multisig_native.Sdk.{Pubkey, AccountInfo, Store, put, Runtime}
use multisig_native.State.MultisigAccount.{Multisig, pubkey_bytes}
use multisig_native.State.Save.{store_multisig}

-- `u64::checked_add`
abbrev pub checked_add : ℕ → ℕ → Option ℕ
checked_add a b = if ltb (a + b) (2 ^ 64) then some (a + b) else none

-- `padding_len` of `execute_set_owners`, in `usize`, from the lengths of the padding, of the
-- old owners and of the new ones.
unfoldable pub padding_len : ℕ → ℕ → ℕ → ℕ
padding_len padding old new =
    (padding + (pubkey_bytes * ((old + 2 ^ 64 - new) % 2 ^ 64)) % 2 ^ 64) % 2 ^ 64

-- `owners.len() as u8`
abbrev pub len_u8 : List Pubkey → ℕ
len_u8 owners = length owners % 2 ^ 8

-- `execute_set_owners` up to its `serialize`: what it does to `multisig_data`. The padding is
-- never as long as a vector may not be, since the owners have been validated.
unfoldable pub with_owners : Multisig → List Pubkey → Multisig
with_owners m owners = record {
  owners = owners;
  threshold = if ltb (len_u8 owners) m.threshold then len_u8 owners else m.threshold;
  nonce = m.nonce;
  owner_set_seqno = (m.owner_set_seqno + 1) % 2 ^ 32;
  padding = replicate (padding_len (length m.padding) (length m.owners) (length owners)) 0;
}

abbrev pub with_threshold : Multisig → ℕ → Multisig
with_threshold m threshold = record m { threshold = threshold }

unfoldable pub validate_owners : Multisig → List Pubkey → ProgramResult
validate_owners multisig owners = do
  assert_unique_owners owners
  assert_that (not (is_empty owners)) not_enough_owners
  assert_that
      (leb (length owners * pubkey_bytes)
        (length multisig.owners * pubkey_bytes + length multisig.padding))
      too_many_owners

unfoldable pub validate_threshold : ℕ → List Pubkey → ProgramResult
validate_threshold threshold owners =
    assert_that (ltb 0 threshold && leb threshold (len_u8 owners)) invalid_threshold

module _ (rt : Runtime) where
  -- The right side of the second assignment is evaluated after the first assignment.
  unfoldable pub close_account : AccountInfo → AccountInfo → Store → Result Store
  close_account account refundee s = do
    let lamports = (s account.key).lamports
    let emptied = put s account.key (record (s account.key) { lamports = 0 })
    total ←
        ok_or (checked_add (emptied refundee.key).lamports lamports)
          (from_multisig_error account_close_failure)
    let paid = put emptied refundee.key (record (emptied refundee.key) { lamports = total })
    resized ← rt.resize (paid account.key) 0
    let shrunk = put paid account.key resized
    ok (put shrunk account.key (rt.assign (shrunk account.key) rt.system_program))

  -- The result holds `multisig_data` as the call leaves it, which the caller goes on with.
  unfoldable pub execute_change_threshold :
      AccountInfo → Multisig → ℕ → Store → Result (Multisig × Store)
  unfolding store_multisig
  execute_change_threshold account m threshold s = do
    let m' = with_threshold m threshold
    t ← store_multisig rt account m' s
    ok (m', t)

  unfoldable pub execute_set_owners :
      AccountInfo → Multisig → List Pubkey → Store → Result (Multisig × Store)
  unfolding store_multisig
  execute_set_owners account m owners s = do
    let m' = with_owners m owners
    t ← store_multisig rt account m' s
    ok (m', t)

  unfoldable pub validate_pda : AccountInfo → AccountInfo → ℕ → Pubkey → ProgramResult
  validate_pda multisig_signer multisig_account nonce program_id = do
    pda_address ←
        ok_or
          (rt.create_program_address (record { address = multisig_account.key; nonce = nonce })
            program_id)
          invalid_seeds
    assert_that (multisig_signer.key == pda_address) invalid_seeds

  unfoldable pub validate_signer : AccountInfo → AccountInfo → Multisig → Pubkey → ProgramResult
  unfolding validate_pda
  validate_signer multisig_signer multisig_account multisig program_id = do
    validate_pda multisig_signer multisig_account multisig.nonce program_id
    assert_that multisig_signer.is_signer multisig_signer_not_signer
