-- ===== src/Instructions/ApproveTransaction/Refused.antt =====
-- Every result of `approve_transaction` (program/src/instructions/approve_transaction.rs), and
-- what an error says about the accounts.
use multisig_native.Base.{
  ℕ, ◌<◌, ◌≤◌, ◌≡◌, ◌≢◌, refl, false, List, ◌∷◌, length, some, get_elem?, position, position-none,
  contains_nowhere, position-some, arith, ◌==◌, lt→ltb, ltb,
}
use native.Mathlib.Decide.{dec_lt}
use multisig_native.Errors.{
  Result, ok, err, panicked, custom, not_enough_account_keys, ProgramError, ◌>>◌,
  account_owned_by_wrong_program, invalid_owner_set_sequence_number, approver_not_signer,
  immutable_transaction_account, invalid_transaction_account, invalid_owner, multisig_error_into,
}
use multisig_native.Errors.Branches.{assert_that-cases, assert_that-last, assert_present-cases}
use multisig_native.Sdk.{Pubkey, AccountInfo, Store, Runtime}
use multisig_native.State.MultisigAccount.{Multisig}
use multisig_native.State.TransactionAccount.{Transaction}
use multisig_native.State.Saved.{
  HoldsMultisig, HoldsTransaction, store_transaction-over, with_vote, len-with_vote,
}
use multisig_native.State.Reads.{multisig-cases, transaction-cases}
use multisig_native.Instructions.Accounts.Cases.{accounts3-cases}
use multisig_native.Instructions.ApproveTransaction.{validate, approve_transaction}
use multisig_native.Instructions.ApproveTransaction.Approved.{
  Approved, approve_transaction-Approved,
}

module _ (rt : Runtime) (program_id : Pubkey) where
  -- Why an approval with these accounts is refused with an error.
  pub data Reason (ms tx approver : AccountInfo) (s : Store) : ProgramError → Type 0 where
    no_multisig :
        ((m : Multisig) → ¬ HoldsMultisig rt s ms.key m) → Reason ms tx approver s (custom 18)
    no_transaction :
        ((t : Transaction) → ¬ HoldsTransaction rt s tx.key t) → Reason ms tx approver s (custom 15)
    foreign_multisig : (s ms.key).owner ≢ program_id → Reason ms tx approver s (custom 19)
    foreign_transaction : (s tx.key).owner ≢ program_id → Reason ms tx approver s (custom 19)
    other_owners :
        {m : Multisig} {t : Transaction}
        → HoldsMultisig rt s ms.key m
        → HoldsTransaction rt s tx.key t
        → t.owner_set_seqno ≢ m.owner_set_seqno
        → Reason ms tx approver s (custom 5)
    unsigned : approver.is_signer ≡ false → Reason ms tx approver s (custom 16)
    not_writable : tx.is_writable ≡ false → Reason ms tx approver s (custom 9)
    other_multisig :
        {t : Transaction}
        → HoldsTransaction rt s tx.key t
        → t.multisig ≢ ms.key
        → Reason ms tx approver s (custom 10)
    no_owner :
        {m : Multisig}
        → HoldsMultisig rt s ms.key m
        → ((i : ℕ) → get_elem? m.owners i ≢ some approver.key)
        → Reason ms tx approver s (custom 2)

  -- What a call returns.
  pub data Returns (accounts : List AccountInfo) (s : Store) : Result Store → Type 0 where
    too_few : length accounts < 3 → Returns accounts s (err not_enough_account_keys)
    refused :
        {ms tx approver : AccountInfo} {rest : List AccountInfo} {e : ProgramError}
        → accounts ≡ ms ∷ tx ∷ approver ∷ rest
        → Reason ms tx approver s e
        → Returns accounts s (err e)
    -- The transaction has no place for the vote of the owner.
    out_of_bounds :
        {ms tx approver : AccountInfo} {rest : List AccountInfo} {m : Multisig} {t : Transaction}
        {i : ℕ}
        → accounts ≡ ms ∷ tx ∷ approver ∷ rest
        → HoldsMultisig rt s ms.key m
        → HoldsTransaction rt s tx.key t
        → get_elem? m.owners i ≡ some approver.key
        → length t.signers ≤ i
        → Returns accounts s panicked
    approved : {t : Store} → Approved rt program_id accounts s t → Returns accounts s (ok t)

  -- A check of the accounts either fails for a reason, or the instruction goes on.
  module _ (ms tx approver : AccountInfo) (s : Store) (m : Multisig) (t : Transaction)
      (hm : HoldsMultisig rt s ms.key m) (ht : HoldsTransaction rt s tx.key t)
      (P : Result Store → Type 0)
      (fails : (e : ProgramError) → Reason ms tx approver s e → P (err e)) where
    validate-cases :
        (next : Result Store) → P next → P (validate program_id m t approver tx ms s >> next)
    unfolding validate
    validate-cases next go =
        assert_that-cases (λ r. P (r >> next)) (program_id == (s ms.key).owner)
          account_owned_by_wrong_program _ (λ f. fails _ (foreign_multisig (ground arith)))
          λ _.
            assert_that-cases (λ r. P (r >> next)) (program_id == (s tx.key).owner)
              account_owned_by_wrong_program _ (λ f. fails _ (foreign_transaction (ground arith)))
              λ _.
                assert_that-cases (λ r. P (r >> next)) (m.owner_set_seqno == t.owner_set_seqno)
                  invalid_owner_set_sequence_number _
                  (λ f. fails _ (other_owners hm ht (ground arith)))
                  λ _.
                    assert_that-cases (λ r. P (r >> next)) approver.is_signer approver_not_signer _
                      (λ f. fails _ (unsigned f))
                      λ _.
                        assert_that-cases (λ r. P (r >> next)) tx.is_writable
                          immutable_transaction_account _ (λ f. fails _ (not_writable f))
                          λ _.
                            assert_that-last (λ r. P (r >> next)) (t.multisig == ms.key)
                              invalid_transaction_account
                              (λ f. fails _ (other_multisig ht (ground arith))) λ _. go

  -- Every result of approve_transaction: NotEnoughAccountKeys on fewer than three accounts; an
  -- error only for its reason (the multisig or the transaction is not read or not the program's,
  -- the sequence numbers differ, the approver has not signed or is no owner, the transaction is
  -- not writable or another multisig's); a panic only if the transaction has no place for the
  -- owner's vote; else success: all of this holds, the transaction has the vote at an index of
  -- the approver, its other fields are as before, and nothing else has changed.
  pub approve_transaction-Returns :
      (accounts : List AccountInfo) (s : Store)
      → Returns accounts s (approve_transaction rt program_id accounts s)
  unfolding approve_transaction
  approve_transaction-Returns accounts s =
      let R : Result Store → Type 0 = λ r.
        ((t : Store) → r ≡ ok t → Approved rt program_id accounts s t) → Returns accounts s r in
      accounts3-cases rt R accounts _ (λ few done. too_few few)
        (λ ms tx approver rest given.
          multisig-cases rt R s ms.key _ (λ e done. refused given (no_multisig e))
            λ m hm.
              transaction-cases rt R s tx.key _ (λ e done. refused given (no_transaction e))
                λ t ht.
                  validate-cases ms tx approver s m t hm ht R
                    (λ e reason done. refused given reason) _
                    (assert_present-cases R (position m.owners approver.key) invalid_owner _
                      (λ e done. refused given (
                        no_owner hm (
                          contains_nowhere m.owners approver.key
                            (position-none m.owners approver.key e))))
                      λ i found. elim (dec_lt i (length t.signers)) [
                        | yes within ↦
                            rw
                              (
                                lt→ltb i (length t.signers) within,
                                store_transaction-over rt tx t (with_vote t i) s ht
                                    (len-with_vote t i),
                              )
                              (λ done. approved (done _ refl))
                        | no outside ↦
                            let past : ltb i (length t.signers) ≡ false = ground arith in
                            rw past (λ done.
                              out_of_bounds given hm ht
                                (position-some m.owners approver.key i found) (omega arith))
                      ]))
        (approve_transaction-Approved rt program_id accounts s)
