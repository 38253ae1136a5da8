-- ===== src/Common/Padding.antt =====
-- The padding of a multisig account (`execute_set_owners` of
-- program/src/instructions/common.rs): with it the data keeps its size when the owners change.
use multisig_native.Base.{
  ℕ, ◌+◌, ◌*◌, ◌^◌, ◌≤◌, ◌<◌, ◌≡◌, List, length, length-replicate, All-replicate, arith,
}
use multisig_native.Sdk.{Pubkey, IsU8, IsKey, IsVec}
use multisig_native.State.MultisigAccount.{Multisig, IsMultisig, len}
use multisig_native.Common.{padding_len, with_owners}

-- Although the subtraction of the lengths wraps around when the new owners are more than the old
-- ones, the new padding is what the new owners leave of the space of the old owners and padding:
-- for lengths that are below 2^32, and new owners that fit into that space.
pub padding_len_lem :
    (padding old new : ℕ)
    → padding < 2 ^ 32
    → old < 2 ^ 32
    → new * 32 ≤ old * 32 + padding
    → padding_len padding old new + new * 32 ≡ padding + old * 32
unfolding padding_len
padding_len_lem padding old new hp ho h = omega arith

module _ (m : Multisig) (owners : List Pubkey) (fits : IsMultisig m)
    (space : length owners * 32 ≤ length m.owners * 32 + length m.padding) where
  -- A multisig with new owners is as long as before, if its fields are values of their types and
  -- the new owners fit into the space of the old ones and the padding.
  pub len-with_owners : len (with_owners m owners) ≡ len m
  unfolding len with_owners
  len-with_owners = omega (
    arith,
    padding_len_lem (length m.padding) (length m.owners) (length owners) fits.padding_fits.0
        fits.owners_fit.0 space,
    length-replicate {0} {A = ℕ} (padding_len (length m.padding) (length m.owners) (length owners))
        0,
  )

  -- The new data holds values of their types, in an account of less than 4 GiB.
  pub with_owners-IsMultisig :
      len m < 2 ^ 32 → IsVec IsKey owners → IsMultisig (with_owners m owners)
  unfolding len with_owners
  with_owners-IsMultisig small keys =
      let n = padding_len (length m.padding) (length m.owners) (length owners) in
      record {
        owners_fit = keys;
        threshold_fits = ground arith;
        nonce_fits = fits.nonce_fits;
        seqno_fits = omega arith;
        padding_fits = (
          omega (
            arith,
            padding_len_lem (length m.padding) (length m.owners) (length owners) fits.padding_fits.0
                fits.owners_fit.0 space,
            length-replicate {0} {A = ℕ} n 0,
          ),
          All-replicate IsU8 n 0 (omega arith),
        );
      }
