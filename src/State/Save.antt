-- ===== src/State/Save.antt =====
-- The statements by which the instructions write account data: `serialize` of the value into
-- the data of its account. Whoever else holds an `AccountInfo` of that key sees the new data.
use multisig_native.Errors.{Result, ok, ◌>>=◌}
use multisig_native.Sdk.{AccountInfo, Store, put, Runtime}
use multisig_native.State.MultisigAccount.{Multisig, multisig_codec}
use multisig_native.State.TransactionAccount.{Transaction, transaction_codec}

module _ (rt : Runtime) where
  -- `multisig_data.serialize(&mut &mut multisig_account.data.borrow_mut()[..])?`
  unfoldable pub store_multisig : AccountInfo → Multisig → Store → Result Store
  store_multisig account m s = do
    bytes ← rt.borsh.serialize (multisig_codec rt.borsh) m (s account.key).bytes
    ok (put s account.key (record (s account.key) { bytes = bytes }))

  -- `transaction.serialize(&mut &mut transaction_account.data.borrow_mut()[..])?`
  unfoldable pub store_transaction : AccountInfo → Transaction → Store → Result Store
  store_transaction account t s = do
    bytes ← rt.borsh.serialize (transaction_codec rt.borsh) t (s account.key).bytes
    ok (put s account.key (record (s account.key) { bytes = bytes }))
