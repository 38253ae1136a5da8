-- ===== src/Instructions/ProposeTransaction/Success.antt =====
-- When `propose_transaction` (program/src/instructions/propose_transaction.rs) succeeds.
use multisig_native.Base.{
  get_elem?-lt, ℕ, ◌<◌, ◌≡◌, ◌≢◌, refl, ap, List, [], ◌∷◌, length, is_empty, replicate, some,
  position, false, position-some, length-replicate, lt→ltb, arith,
}
use multisig_native.Errors.{ok}
use multisig_native.Sdk.{Pubkey, AccountInfo, Account, Store, Runtime}
use multisig_native.State.MultisigAccount.{Multisig}
use multisig_native.State.InstructionData.{TransactionInstructionData}
use multisig_native.State.Stored.{transaction_bytes}
use multisig_native.State.Saved.{HoldsMultisig, with_bytes, store_transaction-exact}
use multisig_native.Instructions.Accounts.{accounts5-cons}
use multisig_native.Instructions.ProposeTransaction.{
  ProposeTransactionInstruction, validate, propose_transaction,
}
use multisig_native.Instructions.ProposeTransaction.Proposed.{MayPropose, make_account, proposed}

is_empty_nil : (ixs : List TransactionInstructionData) → ixs ≢ [] → is_empty ixs ≡ false
is_empty_nil [] ne = absurd (ne refl)
is_empty_nil (x ∷ xs) ne = refl

module _ (rt : Runtime) (program_id : Pubkey) where
  MayPropose-validate :
      (ms proposer sys : AccountInfo) (ix : ProposeTransactionInstruction) (s : Store)
      → MayPropose rt program_id ms proposer sys ix s
      → validate rt program_id ms proposer sys ix s ≡ ok tt
  unfolding validate
  MayPropose-validate ms proposer sys ix s may =
      ground (arith, is_empty_nil ix.instructions may.nonempty)

  -- propose_transaction succeeds, and stores the transaction with the proposer's vote only, if
  -- the multisig is held by the given account, the checks pass, the proposer is one of the
  -- owners, the rent is known and the system program makes the account.
  pub propose_transaction_succeeds :
      (ms tx proposer payer sys : AccountInfo) (rest : List AccountInfo)
      (ix : ProposeTransactionInstruction) (multisig : Multisig) (i : ℕ) (minimum_balance : ℕ → ℕ)
      (s created : Store)
      → HoldsMultisig rt s ms.key multisig
      → MayPropose rt program_id ms proposer sys ix s
      → position multisig.owners proposer.key ≡ some i
      → rt.rent_get ≡ ok minimum_balance
      → make_account rt program_id tx payer sys minimum_balance (proposed ms.key multisig ix i) s
        ≡ ok created
      → propose_transaction rt program_id (ms ∷ tx ∷ proposer ∷ payer ∷ sys ∷ rest) ix s
        ≡ ok
            (with_bytes created tx.key (transaction_bytes rt.borsh (proposed ms.key multisig ix i)))
  unfolding propose_transaction
  propose_transaction_succeeds ms tx proposer payer sys rest ix multisig i minimum_balance s created
        hm may found rent made =
      let n = length multisig.owners in
      let within : i < length (replicate n false) = omega (
        arith,
        get_elem?-lt multisig.owners i proposer.key
            (position-some multisig.owners proposer.key i found),
        length-replicate n false,
      ) in
      let (_, _, fresh) = rt.create_account_new _ _ _ _ _ _ s created made in
      simp
        (
          accounts5-cons rt ms tx proposer payer sys rest,
          MayPropose-validate ms proposer sys ix s may,
          hm,
          found,
          lt→ltb i _ within,
          rent,
          made,
        )
        (store_transaction-exact rt tx (proposed ms.key multisig ix i) created
          (ap (λ (a : Account). a.bytes) fresh))
