-- ===== src/Instructions/CancelTransaction/Refused.antt =====
-- Every result of `cancel_transaction` (program/src/instructions/cancel_transaction.rs), and what
-- an error says about the accounts.
use multisig_native.Base.{
  Bool-cases, ℕ, ◌+◌, ◌^◌, ◌<◌, ◌≤◌, ◌≡◌, ◌≢◌, refl, false, not, List, ◌∷◌, length, some, get_elem?,
  contains, contains_nowhere, arith, ◌==◌, ◌&&◌, leb, inl, inr,
}
use multisig_native.Errors.{
  Result, ok, err, custom, not_enough_account_keys, ProgramError, ◌>>◌,
  account_owned_by_wrong_program, invalid_owner_set_sequence_number, invalid_executor,
  immutable_transaction_account, invalid_transaction_account, invalid_refundee_account,
  immutable_refundee_account, multisig_error_into,
}
use multisig_native.Errors.Branches.{assert_that-cases, assert_that-last}
use multisig_native.Sdk.{Pubkey, AccountInfo, Store, Runtime}
use multisig_native.State.MultisigAccount.{Multisig}
use multisig_native.State.TransactionAccount.{Transaction}
use multisig_native.State.Saved.{HoldsMultisig, HoldsTransaction}
use multisig_native.State.Reads.{multisig-cases, transaction-cases}
use multisig_native.Common.Close.{close_account_lem}
use multisig_native.Instructions.Accounts.Cases.{accounts4-cases}
use multisig_native.Instructions.CancelTransaction.{validate, cancel_transaction}
use multisig_native.Instructions.CancelTransaction.Cancelled.{
  Cancelled, cancel_transaction-Cancelled,
}

module _ (rt : Runtime) (program_id : Pubkey) where
  -- Why a cancellation with these accounts is refused.
  pub data Reason (ms tx refundee executor : AccountInfo) (s : Store) : ProgramError → Type 0 where
    foreign_multisig : (s ms.key).owner ≢ program_id → Reason ms tx refundee executor s (custom 19)
    foreign_transaction :
        (s tx.key).owner ≢ program_id → Reason ms tx refundee executor s (custom 19)
    no_multisig :
        ((m : Multisig) → ¬ HoldsMultisig rt s ms.key m)
        → Reason ms tx refundee executor s (custom 18)
    no_transaction :
        ((t : Transaction) → ¬ HoldsTransaction rt s tx.key t)
        → Reason ms tx refundee executor s (custom 15)
    unsigned : executor.is_signer ≡ false → Reason ms tx refundee executor s (custom 8)
    no_owner :
        {m : Multisig}
        → HoldsMultisig rt s ms.key m
        → ((i : ℕ) → get_elem? m.owners i ≢ some executor.key)
        → Reason ms tx refundee executor s (custom 8)
    newer :
        {m : Multisig} {t : Transaction}
        → HoldsMultisig rt s ms.key m
        → HoldsTransaction rt s tx.key t
        → m.owner_set_seqno < t.owner_set_seqno
        → Reason ms tx refundee executor s (custom 5)
    other_multisig :
        {t : Transaction}
        → HoldsTransaction rt s tx.key t
        → t.multisig ≢ ms.key
        → Reason ms tx refundee executor s (custom 10)
    not_writable : tx.is_writable ≡ false → Reason ms tx refundee executor s (custom 9)
    into_itself : refundee.key ≡ tx.key → Reason ms tx refundee executor s (custom 11)
    refundee_not_writable :
        refundee.is_writable ≡ false → Reason ms tx refundee executor s (custom 12)
    too_much :
        2 ^ 64 ≤ (s refundee.key).lamports + (s tx.key).lamports
        → Reason ms tx refundee executor s (custom 14)

  -- What a call returns: it does not panic.
  pub data Returns (accounts : List AccountInfo) (s : Store) : Result Store → Type 0 where
    too_few : length accounts < 4 → Returns accounts s (err not_enough_account_keys)
    refused :
        {ms tx refundee executor : AccountInfo} {rest : List AccountInfo} {e : ProgramError}
        → accounts ≡ ms ∷ tx ∷ refundee ∷ executor ∷ rest
        → Reason ms tx refundee executor s e
        → Returns accounts s (err e)
    cancelled : {t : Store} → Cancelled rt program_id accounts s t → Returns accounts s (ok t)

  module _ (ms tx refundee executor : AccountInfo) (s : Store) (P : Result Store → Type 0)
      (fails : (e : ProgramError) → Reason ms tx refundee executor s e → P (err e)) where
    no_executor :
        (m : Multisig)
        → HoldsMultisig rt s ms.key m
        → (executor.is_signer && contains m.owners executor.key) ≡ false
        → P (err (custom 8))
    no_executor m hm f = elim (Bool-cases executor.is_signer) [
      | inr e ↦ fails _ (unsigned e)
      | inl e ↦ fails _ (no_owner hm (contains_nowhere m.owners executor.key (ground arith)))
    ]

    validate-cases :
        (next : Result Store)
        → (refundee.key ≢ tx.key → P next)
        → P (validate rt program_id ms tx refundee executor s >> next)
    unfolding validate
    validate-cases next go =
        let Q : Result Unit → Type 0 = λ r. P (r >> next) in
        assert_that-cases Q (program_id == (s ms.key).owner) account_owned_by_wrong_program _
          (λ f. fails _ (foreign_multisig (ground arith)))
          λ _.
            assert_that-cases Q (program_id == (s tx.key).owner) account_owned_by_wrong_program _
              (λ f. fails _ (foreign_transaction (ground arith)))
              λ _.
                multisig-cases rt Q s ms.key _ (λ f. fails _ (no_multisig f))
                  λ m hm.
                    transaction-cases rt Q s tx.key _ (λ f. fails _ (no_transaction f))
                      λ t ht.
                        assert_that-cases Q (executor.is_signer && contains m.owners executor.key)
                          invalid_executor _ (no_executor m hm)
                          λ _.
                            assert_that-cases Q (leb t.owner_set_seqno m.owner_set_seqno)
                              invalid_owner_set_sequence_number _
                              (λ f. fails _ (newer hm ht (ground arith)))
                              λ _.
                                assert_that-cases Q (t.multisig == ms.key)
                                  invalid_transaction_account _
                                  (λ f. fails _ (other_multisig ht (ground arith)))
                                  λ _.
                                    assert_that-cases Q tx.is_writable immutable_transaction_account
                                      _ (λ f. fails _ (not_writable f))
                                      λ _.
                                        assert_that-cases Q (not (refundee.key == tx.key))
                                          invalid_refundee_account _
                                          (λ f. fails _ (into_itself (ground arith)))
                                          λ apart.
                                            assert_that-last Q refundee.is_writable
                                              immutable_refundee_account
                                              (λ f. fails _ (refundee_not_writable f))
                                              λ _. go (ground arith)

  -- Every result of cancel_transaction: NotEnoughAccountKeys on fewer than four accounts; an
  -- error only for its reason (the multisig or the transaction is not read or not the program's,
  -- the executor has not signed or is no owner, the transaction is newer than the multisig's
  -- sequence number, another multisig's, or not writable, the refundee is the transaction itself
  -- or not writable, the lamports of both exceed a u64); no panic; else success: all of this
  -- holds, the transaction account is closed into the refundee, and no other account has changed.
  pub cancel_transaction-Returns :
      (accounts : List AccountInfo) (s : Store)
      → Returns accounts s (cancel_transaction rt program_id accounts s)
  unfolding cancel_transaction
  cancel_transaction-Returns accounts s =
      let R : Result Store → Type 0 = λ r.
        ((t : Store) → r ≡ ok t → Cancelled rt program_id accounts s t) → Returns accounts s r in
      accounts4-cases rt R accounts _ (λ few done. too_few few)
        (λ ms tx refundee executor rest given.
          validate-cases ms tx refundee executor s R (λ e reason done. refused given reason) _
            λ apart. elim (close_account_lem rt tx refundee s apart) [
              | inl (_, (t, closes, _)) ↦ rw closes (λ done. cancelled (done t refl))
              | inr (full, fails) ↦ rw fails (λ done. refused given (too_much full))
            ])
        (cancel_transaction-Cancelled rt program_id accounts s)
