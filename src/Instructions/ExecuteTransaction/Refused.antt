-- ===== src/Instructions/ExecuteTransaction/Refused.antt =====
-- Every result of `execute_transaction` (program/src/instructions/execute_transaction.rs), and
-- what an error says about the accounts.
use multisig_native.Base.{
  Bool-cases, ℕ, ◌+◌, ◌^◌, ◌%◌, ◌<◌, ◌≤◌, ◌≡◌, ◌≢◌, refl, subst, false, not, List, ◌∷◌, length,
  some, get_elem?, contains, contains_nowhere, arith, ◌==◌, ◌&&◌, leb, inl, inr,
}
use multisig_native.Errors.{
  Result, ok, err, panicked, custom, invalid_seeds, not_enough_account_keys, ProgramError,
  not_enough_signers, account_owned_by_wrong_program, invalid_owner_set_sequence_number,
  invalid_executor, immutable_transaction_account, invalid_transaction_account,
  invalid_refundee_account, immutable_refundee_account, multisig_error_into, program_error_into,
}
use multisig_native.Errors.Branches.{Result-cases, assert_that-cases}
use multisig_native.Sdk.{Pubkey, AccountInfo, Store, Runtime, Seeds}
use multisig_native.State.MultisigAccount.{Multisig}
use multisig_native.State.TransactionAccount.{Transaction}
use multisig_native.State.Saved.{HoldsMultisig, HoldsTransaction}
use multisig_native.State.Reads.{multisig-cases, transaction-cases}
use multisig_native.Common.Checks.{IsSigner}
use multisig_native.Common.Branches.{validate_pda-then}
use multisig_native.Common.Close.{close_account_lem}
use multisig_native.Instructions.Accounts.Cases.{accounts5-cases}
use multisig_native.Instructions.ExecuteTransaction.{
  ValidatedAccounts, count_signed, validate, invoke_all, execute_transaction,
}
use multisig_native.Instructions.ExecuteTransaction.Validated.{validate-Validated}
use multisig_native.Instructions.ExecuteTransaction.Executed.{
  Executed, execute_transaction-Executed,
}

module _ (rt : Runtime) (program_id : Pubkey) where
  -- Why an execution with these accounts is refused before anything is invoked.
  pub data Reason (ms signer tx refundee executor : AccountInfo) (s : Store)
      : ProgramError → Type 0 where
    foreign_multisig :
        (s ms.key).owner ≢ program_id → Reason ms signer tx refundee executor s (custom 19)
    foreign_transaction :
        (s tx.key).owner ≢ program_id → Reason ms signer tx refundee executor s (custom 19)
    no_multisig :
        ((m : Multisig) → ¬ HoldsMultisig rt s ms.key m)
        → Reason ms signer tx refundee executor s (custom 18)
    no_transaction :
        ((t : Transaction) → ¬ HoldsTransaction rt s tx.key t)
        → Reason ms signer tx refundee executor s (custom 15)
    unsigned : executor.is_signer ≡ false → Reason ms signer tx refundee executor s (custom 8)
    no_owner :
        {m : Multisig}
        → HoldsMultisig rt s ms.key m
        → ((i : ℕ) → get_elem? m.owners i ≢ some executor.key)
        → Reason ms signer tx refundee executor s (custom 8)
    other_owners :
        {m : Multisig} {t : Transaction}
        → HoldsMultisig rt s ms.key m
        → HoldsTransaction rt s tx.key t
        → t.owner_set_seqno ≢ m.owner_set_seqno
        → Reason ms signer tx refundee executor s (custom 5)
    other_signer :
        {m : Multisig}
        → HoldsMultisig rt s ms.key m
        → ¬ IsSigner rt signer ms m.nonce program_id
        → Reason ms signer tx refundee executor s invalid_seeds
    not_writable : tx.is_writable ≡ false → Reason ms signer tx refundee executor s (custom 9)
    other_multisig :
        {t : Transaction}
        → HoldsTransaction rt s tx.key t
        → t.multisig ≢ ms.key
        → Reason ms signer tx refundee executor s (custom 10)
    into_itself : refundee.key ≡ tx.key → Reason ms signer tx refundee executor s (custom 11)
    refundee_not_writable :
        refundee.is_writable ≡ false → Reason ms signer tx refundee executor s (custom 12)
    too_early :
        {m : Multisig} {t : Transaction}
        → HoldsMultisig rt s ms.key m
        → HoldsTransaction rt s tx.key t
        → count_signed t.signers % 2 ^ 8 < m.threshold
        → Reason ms signer tx refundee executor s (custom 13)

  -- What the checks return: they do not panic.
  data Checked (accounts : List AccountInfo) (s : Store) : Result ValidatedAccounts → Type 0 where
    few : length accounts < 5 → Checked accounts s (err not_enough_account_keys)
    failed :
        {ms signer tx refundee executor : AccountInfo} {rest : List AccountInfo} {e : ProgramError}
        → accounts ≡ ms ∷ signer ∷ tx ∷ refundee ∷ executor ∷ rest
        → Reason ms signer tx refundee executor s e
        → Checked accounts s (err e)
    passed : {v : ValidatedAccounts} → Checked accounts s (ok v)

  -- What a call returns; the instructions that it invokes start from the store that it is given.
  pub data Returns (accounts : List AccountInfo) (s : Store) : Result Store → Type 0 where
    too_few : length accounts < 5 → Returns accounts s (err not_enough_account_keys)
    refused :
        {ms signer tx refundee executor : AccountInfo} {rest : List AccountInfo} {e : ProgramError}
        → accounts ≡ ms ∷ signer ∷ tx ∷ refundee ∷ executor ∷ rest
        → Reason ms signer tx refundee executor s e
        → Returns accounts s (err e)
    -- An invoked instruction ends the call with its own error.
    not_invoked :
        {v : ValidatedAccounts} {e : ProgramError}
        → validate rt program_id accounts s ≡ ok v
        → invoke_all rt v.multisig_signer.key
            (record { address = v.multisig_account.key; nonce = v.multisig.nonce })
            accounts
            v.transaction.instructions
            s
          ≡ err e
        → Returns accounts s (err e)
    invoked_panic :
        {v : ValidatedAccounts}
        → validate rt program_id accounts s ≡ ok v
        → invoke_all rt v.multisig_signer.key
            (record { address = v.multisig_account.key; nonce = v.multisig.nonce })
            accounts
            v.transaction.instructions
            s
          ≡ panicked
        → Returns accounts s panicked
    too_much :
        {v : ValidatedAccounts} {u : Store}
        → validate rt program_id accounts s ≡ ok v
        → invoke_all rt v.multisig_signer.key
            (record { address = v.multisig_account.key; nonce = v.multisig.nonce })
            accounts
            v.transaction.instructions
            s
          ≡ ok u
        → 2 ^ 64 ≤ (u v.refundee.key).lamports + (u v.transaction_account.key).lamports
        → Returns accounts s (err (custom 14))
    executed : {t : Store} → Executed rt program_id accounts s t → Returns accounts s (ok t)

  validate-Checked :
      (accounts : List AccountInfo) (s : Store)
      → Checked accounts s (validate rt program_id accounts s)
  unfolding validate
  validate-Checked accounts s =
      let Q : Result ValidatedAccounts → Type 0 = Checked accounts s in
      accounts5-cases rt Q accounts _ few λ ms signer tx refundee executor rest given.
        assert_that-cases Q (program_id == (s ms.key).owner) account_owned_by_wrong_program _
          (λ f. failed given (foreign_multisig (ground arith)))
          λ own.
            assert_that-cases Q (program_id == (s tx.key).owner) account_owned_by_wrong_program _
              (λ f. failed given (foreign_transaction (ground arith)))
              λ _.
                multisig-cases rt Q s ms.key _ (λ f. failed given (no_multisig f))
                  λ m hm.
                    transaction-cases rt Q s tx.key _ (λ f. failed given (no_transaction f))
                      λ t ht.
                        assert_that-cases Q (executor.is_signer && contains m.owners executor.key)
                          invalid_executor _
                          (λ f. elim (Bool-cases executor.is_signer) [
                            | inr e ↦ failed given (unsigned e)
                            | inl e ↦ failed given (
                                no_owner hm (contains_nowhere m.owners executor.key (ground arith)))
                          ])
                          λ _.
                            assert_that-cases Q (m.owner_set_seqno == t.owner_set_seqno)
                              invalid_owner_set_sequence_number _
                              (λ f. failed given (other_owners hm ht (ground arith)))
                              λ _.
                                validate_pda-then rt (s ms.key).owner signer ms m.nonce Q _
                                  (λ f.
                                    let same : (s ms.key).owner ≡ program_id = ground arith in
                                    failed given (
                                      other_signer hm
                                        (subst (λ p. ¬ IsSigner rt signer ms m.nonce p) same f)))
                                  λ _.
                                    assert_that-cases Q tx.is_writable immutable_transaction_account
                                      _ (λ f. failed given (not_writable f))
                                      λ _.
                                        assert_that-cases Q (t.multisig == ms.key)
                                          invalid_transaction_account _
                                          (λ f. failed given (other_multisig ht (ground arith)))
                                          λ _.
                                            assert_that-cases Q (not (refundee.key == tx.key))
                                              invalid_refundee_account _
                                              (λ f. failed given (into_itself (ground arith)))
                                              λ _.
                                                assert_that-cases Q refundee.is_writable
                                                  immutable_refundee_account _
                                                  (λ f. failed given (refundee_not_writable f))
                                                  λ _.
                                                    assert_that-cases Q
                                                      (leb m.threshold
                                                        (count_signed t.signers % 2 ^ 8))
                                                      not_enough_signers _
                                                      (λ f.
                                                        failed given
                                                          (too_early hm ht (ground arith)))
                                                      λ _. passed

  -- After the checks, the stored instructions and the closing.
  checked-Returns :
      (accounts : List AccountInfo) (s : Store) (v : ValidatedAccounts)
      → validate rt program_id accounts s ≡ ok v
      → Returns accounts s (execute_transaction rt program_id accounts s)
  unfolding execute_transaction
  checked-Returns accounts s v valid =
      let apart = (validate-Validated rt program_id accounts s v valid).checked.ready.apart in
      let seeds : Seeds = record { address = v.multisig_account.key; nonce = v.multisig.nonce } in
      let all = invoke_all rt v.multisig_signer.key seeds accounts v.transaction.instructions s in
      elim (Result-cases all) [
        | inl e ↦ rw (valid, e) (invoked_panic valid e)
        | inr (inl (error, e)) ↦ rw (valid, e) (not_invoked valid e)
        | inr (inr (u, e)) ↦ elim (close_account_lem rt v.transaction_account v.refundee u apart) [
          | inl (_, (t, closes, _)) ↦
              let done : execute_transaction rt program_id accounts s ≡ ok t =
                rw (valid, e) closes in
              rw done (executed (execute_transaction-Executed rt program_id accounts s t done))
          | inr (full, fails) ↦ rw (valid, e, fails) (too_much valid e full)
        ]
      ]

  continue-Returns :
      (accounts : List AccountInfo) (s : Store) (r : Result ValidatedAccounts)
      → validate rt program_id accounts s ≡ r
      → Checked accounts s r
      → Returns accounts s (execute_transaction rt program_id accounts s)
  unfolding execute_transaction
  continue-Returns accounts s r h (few short) = rw h (too_few short)
  continue-Returns accounts s r h (failed given reason) = rw h (refused given reason)
  continue-Returns accounts s r h (passed {v}) = checked-Returns accounts s v h

  -- Every result of execute_transaction: NotEnoughAccountKeys on fewer than five accounts; before
  -- anything is invoked, an error only for its reason (the multisig or the transaction is not
  -- read or not the program's, the executor has not signed or is no owner, the sequence numbers
  -- differ, the signer is not the derived address, the transaction is not writable or another
  -- multisig's, the refundee is the transaction itself or not writable, the votes modulo 256 are
  -- below the threshold); the failure of an invoked instruction; AccountCloseFailure where the
  -- lamports then exceed a u64; else success: all checks hold with at least threshold votes,
  -- every instruction was invoked in order with the signer's seeds, and the transaction account
  -- was then closed into the refundee.
  pub execute_transaction-Returns :
      (accounts : List AccountInfo) (s : Store)
      → Returns accounts s (execute_transaction rt program_id accounts s)
  execute_transaction-Returns accounts s =
      continue-Returns accounts s (validate rt program_id accounts s) refl
        (validate-Checked accounts s)
