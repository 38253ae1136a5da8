-- ===== src/Common/Checks.antt =====
-- What the checks of program/src/instructions/common.rs accept.
use multisig_native.Base.{
  ℕ, ◌+◌, ◌*◌, ◌%◌, ◌^◌, ◌≤◌, ◌<◌, ◌≡◌, ◌↔◌, true, List, [], ◌∷◌, length, some, arith, not,
  is_empty, le→leb,
}
use multisig_native.Errors.{ok, bind_ok, assert_unique_owners}
use multisig_native.Errors.Unique.{IsUnique, assert_unique_owners_iff}
use multisig_native.Sdk.{Pubkey, AccountInfo, Runtime}
use multisig_native.State.MultisigAccount.{Multisig}
use multisig_native.Common.{validate_owners, validate_threshold, validate_pda, validate_signer}

-- The owners that `validate_owners` lets pass.
pub record AreOwnersFor (m : Multisig) (owners : List Pubkey) : Type 0 where
  pub unique : IsUnique owners
  pub nonempty : 0 < length owners
  pub space : length owners * 32 ≤ length m.owners * 32 + length m.padding

is_empty_iff : (xs : List Pubkey) → (not (is_empty xs) ≡ true) ↔ (0 < length xs)
is_empty_iff [] = ground arith
is_empty_iff (x ∷ xs) = ground arith

validate_owners_sound :
    (m : Multisig) (owners : List Pubkey) → validate_owners m owners ≡ ok tt → AreOwnersFor m owners
unfolding validate_owners
validate_owners_sound m owners h = bind_ok (assert_unique_owners owners) _ h λ _ distinct rest.
    record {
      unique = (assert_unique_owners_iff owners).0 distinct;
      nonempty = ground (arith, (is_empty_iff owners).0);
      space = ground arith;
    }

validate_owners_complete :
    (m : Multisig) (owners : List Pubkey) → AreOwnersFor m owners → validate_owners m owners ≡ ok tt
unfolding validate_owners
validate_owners_complete m owners h = rw (
  (assert_unique_owners_iff owners).1 h.unique,
  (is_empty_iff owners).1 h.nonempty,
  le→leb _ _ h.space,
)

-- New owners pass exactly if no key stands at two positions, there is at least one, and they fit
-- into the space of the stored owners and the padding.
pub validate_owners_iff :
    (m : Multisig) (owners : List Pubkey)
    → (validate_owners m owners ≡ ok tt) ↔ AreOwnersFor m owners
validate_owners_iff m owners = (validate_owners_sound m owners, validate_owners_complete m owners)

-- A threshold passes exactly if it is positive and at most the number of owners, taken as a `u8`.
pub validate_threshold_iff :
    (threshold : ℕ) (owners : List Pubkey)
    → (validate_threshold threshold owners ≡ ok tt)
      ↔ ((0 < threshold) × (threshold ≤ length owners % 2 ^ 8))
unfolding validate_threshold
validate_threshold_iff threshold owners = ground arith

-- The signer of a multisig is the address derived from its key and nonce.
abbrev pub IsSigner : Runtime → AccountInfo → AccountInfo → ℕ → Pubkey → Type 0
IsSigner rt multisig_signer multisig_account nonce program_id =
    rt.create_program_address (record { address = multisig_account.key; nonce = nonce }) program_id
    ≡ some multisig_signer.key

pub validate_pda_iff :
    (rt : Runtime) (multisig_signer multisig_account : AccountInfo) (nonce : ℕ)
    (program_id : Pubkey)
    → (validate_pda rt multisig_signer multisig_account nonce program_id ≡ ok tt)
      ↔ IsSigner rt multisig_signer multisig_account nonce program_id
unfolding validate_pda
validate_pda_iff rt multisig_signer multisig_account nonce program_id = ground arith

pub validate_signer_iff :
    (rt : Runtime) (multisig_signer multisig_account : AccountInfo) (m : Multisig)
    (program_id : Pubkey)
    → (validate_signer rt multisig_signer multisig_account m program_id ≡ ok tt) ↔ (
        IsSigner rt multisig_signer multisig_account m.nonce program_id
        × (multisig_signer.is_signer ≡ true))
unfolding validate_signer
validate_signer_iff rt multisig_signer multisig_account m program_id = ground arith
