-- ===== src/Common/Writes.antt =====
-- What `execute_set_owners` and `execute_change_threshold` of
-- program/src/instructions/common.rs leave in the multisig account.
use multisig_native.Base.{ℕ, ◌+◌, ◌*◌, ◌≤◌, ◌≡◌, refl, List, length, ◌^◌, ◌<◌, arith}
use multisig_native.Errors.{ok}
use multisig_native.Sdk.{Pubkey, AccountInfo, Store, Runtime, IsKey, IsVec}
use multisig_native.State.MultisigAccount.{Multisig, len, IsMultisig}
use multisig_native.State.Stored.{multisig_bytes, multisig_stored}
use multisig_native.Common.{
  with_owners, with_threshold, execute_set_owners, execute_change_threshold,
}
use multisig_native.Common.Padding.{len-with_owners, with_owners-IsMultisig}
use multisig_native.State.Saved.{HoldsMultisig, with_bytes, store_multisig-over}

-- The runtime's limit on the data of an account, 10 MiB.
abbrev pub max_data_length : ℕ
max_data_length = 10 * 1024 * 1024

module _ (rt : Runtime) where
  -- For owners that fit into the space of a stored multisig, the whole of its data is replaced.
  pub execute_set_owners_lem :
      (account : AccountInfo) (m : Multisig) (owners : List Pubkey) (s : Store)
      → HoldsMultisig rt s account.key m
      → length owners * 32 ≤ length m.owners * 32 + length m.padding
      → execute_set_owners rt account m owners s
        ≡ ok (
          with_owners m owners,
          with_bytes s account.key (multisig_bytes rt.borsh (with_owners m owners)),
        )
  unfolding execute_set_owners
  execute_set_owners_lem account m owners s h space = rw (
      store_multisig-over rt account m (with_owners m owners) s h
        (len-with_owners m owners (multisig_stored rt.borsh _ m h).2 space))

  pub execute_change_threshold_lem :
      (account : AccountInfo) (m : Multisig) (threshold : ℕ) (s : Store)
      → HoldsMultisig rt s account.key m
      → execute_change_threshold rt account m threshold s
        ≡ ok (
          with_threshold m threshold,
          with_bytes s account.key (multisig_bytes rt.borsh (with_threshold m threshold)),
        )
  unfolding execute_change_threshold
  execute_change_threshold_lem account m threshold s h =
      rw (store_multisig-over rt account m (with_threshold m threshold) s h (unfold len in refl))

  -- New owners that fit leave a multisig of proper values, in an account of at most 10 MiB.
  pub with_owners-stored :
      (k : Pubkey) (m : Multisig) (owners : List Pubkey) (s : Store)
      → HoldsMultisig rt s k m
      → length owners * 32 ≤ length m.owners * 32 + length m.padding
      → length (s k).bytes ≤ max_data_length
      → IsVec IsKey owners
      → IsMultisig (with_owners m owners)
  with_owners-stored k m owners s h space small keys =
      let (_, size, fits) = multisig_stored rt.borsh _ m h in
      with_owners-IsMultisig m owners fits space (omega arith) keys

  pub with_threshold-stored :
      (k : Pubkey) (m : Multisig) (threshold : ℕ) (s : Store)
      → HoldsMultisig rt s k m
      → threshold < 2 ^ 8
      → IsMultisig (with_threshold m threshold)
  with_threshold-stored k m threshold s h fits' =
      let (_, _, fits) = multisig_stored rt.borsh _ m h in
      record {
        owners_fit = fits.owners_fit;
        threshold_fits = fits';
        nonce_fits = fits.nonce_fits;
        seqno_fits = fits.seqno_fits;
        padding_fits = fits.padding_fits;
      }
