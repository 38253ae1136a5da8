-- ===== src/State/Reads.antt =====
-- What reading an account (`checked_deserialize` of program/src/state/multisig.rs and
-- program/src/state/transaction.rs) returns on both branches.
use multisig_native.Errors.{
  Result, err, custom, ◌>>=◌, multisig_error_into, malformed_multisig_account,
  malformed_transaction_account,
}
use multisig_native.Errors.Branches.{assert_success-cases}
use multisig_native.Sdk.{Pubkey, Store, Runtime}
use multisig_native.State.MultisigAccount.{Multisig, multisig_codec}
use multisig_native.State.MultisigAccount
use multisig_native.State.TransactionAccount.{Transaction, transaction_codec}
use multisig_native.State.TransactionAccount
use multisig_native.State.Saved.{HoldsMultisig, HoldsTransaction}

module _ (rt : Runtime) {A : Type 0} (P : Result A → Type 0) (s : Store) (k : Pubkey) where
  pub multisig-cases :
      (next : Multisig → Result A)
      → (((m : Multisig) → ¬ HoldsMultisig rt s k m) → P (err (custom 18)))
      → ((m : Multisig) → HoldsMultisig rt s k m → P (next m))
      → P (MultisigAccount.checked_deserialize rt.borsh (s k).bytes >>= next)
  unfolding MultisigAccount.checked_deserialize
  multisig-cases next malformed go =
      assert_success-cases P (rt.borsh.try_from_slice (multisig_codec rt.borsh) (s k).bytes)
        malformed_multisig_account next (λ e. malformed (λ m h. cc)) (λ m e. go m (rw e))

  pub transaction-cases :
      (next : Transaction → Result A)
      → (((t : Transaction) → ¬ HoldsTransaction rt s k t) → P (err (custom 15)))
      → ((t : Transaction) → HoldsTransaction rt s k t → P (next t))
      → P (TransactionAccount.checked_deserialize rt.borsh (s k).bytes >>= next)
  unfolding TransactionAccount.checked_deserialize
  transaction-cases next malformed go =
      assert_success-cases P (rt.borsh.try_from_slice (transaction_codec rt.borsh) (s k).bytes)
        malformed_transaction_account next (λ e. malformed (λ t h. cc)) (λ t e. go t (rw e))
