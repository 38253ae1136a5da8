-- ===== src/Instructions/ProposeTransaction/Refused.antt =====
-- Every result of `propose_transaction` (program/src/instructions/propose_transaction.rs), and
-- what an error says about the accounts.
use multisig_native.Base.{
  get_elem?-lt, ℕ, ◌<◌, ◌≡◌, ◌≢◌, refl, ap, false, not, List, [], ◌∷◌, All, length, replicate,
  is_empty, some, get_elem?, position, position-some, position-none, contains_nowhere,
  length-replicate, lt→ltb, arith, ◌==◌,
}
use multisig_native.Errors.{
  Result, ok, err, custom, ProgramError, incorrect_program_id, not_enough_account_keys, ◌>>◌,
  account_owned_by_wrong_program, proposer_not_signer, missing_instructions, invalid_owner,
  program_error_into, multisig_error_into,
}
use multisig_native.Errors.Branches.{
  assert_that-cases, assert_that-last, assert_present-cases, Failed, Failed-cases,
}
use multisig_native.Sdk.{Pubkey, AccountInfo, Account, Store, Runtime, IsKey, IsVec}
use multisig_native.State.MultisigAccount.{Multisig}
use multisig_native.State.InstructionData.{IsInstructionData}
use multisig_native.State.Saved.{HoldsMultisig, store_transaction-exact}
use multisig_native.State.Reads.{multisig-cases}
use multisig_native.Instructions.Accounts.Cases.{accounts5-cases}
use multisig_native.Instructions.ProposeTransaction.{
  ProposeTransactionInstruction, validate, propose_transaction,
}
use multisig_native.Instructions.ProposeTransaction.Proposed.{
  Proposed, proposed, make_account, propose_transaction-Proposed,
}

module _ (rt : Runtime) (program_id : Pubkey) where
  -- Why a proposal with these accounts is refused.
  pub data Reason (ms proposer sys : AccountInfo) (ix : ProposeTransactionInstruction) (s : Store)
      : ProgramError → Type 0 where
    foreign_multisig : (s ms.key).owner ≢ program_id → Reason ms proposer sys ix s (custom 19)
    other_program : sys.key ≢ rt.system_program → Reason ms proposer sys ix s incorrect_program_id
    unsigned : proposer.is_signer ≡ false → Reason ms proposer sys ix s (custom 3)
    no_instructions : ix.instructions ≡ [] → Reason ms proposer sys ix s (custom 4)
    no_multisig :
        ((m : Multisig) → ¬ HoldsMultisig rt s ms.key m) → Reason ms proposer sys ix s (custom 18)
    no_owner :
        {m : Multisig}
        → HoldsMultisig rt s ms.key m
        → ((i : ℕ) → get_elem? m.owners i ≢ some proposer.key)
        → Reason ms proposer sys ix s (custom 2)

  -- What a call returns.
  pub data Returns (accounts : List AccountInfo) (ix : ProposeTransactionInstruction) (s : Store)
      : Result Store → Type 0 where
    too_few : length accounts < 5 → Returns accounts ix s (err not_enough_account_keys)
    refused :
        {ms tx proposer payer sys : AccountInfo} {rest : List AccountInfo} {e : ProgramError}
        → accounts ≡ ms ∷ tx ∷ proposer ∷ payer ∷ sys ∷ rest
        → Reason ms proposer sys ix s e
        → Returns accounts ix s (err e)
    no_rent : {r : Result Store} → Failed rt.rent_get r → Returns accounts ix s r
    -- The system program has not made the account.
    not_made :
        {ms tx proposer payer sys : AccountInfo} {rest : List AccountInfo} {m : Multisig}
        {r : Result Store} (i : ℕ) (minimum_balance : ℕ → ℕ)
        → accounts ≡ ms ∷ tx ∷ proposer ∷ payer ∷ sys ∷ rest
        → HoldsMultisig rt s ms.key m
        → get_elem? m.owners i ≡ some proposer.key
        → Failed
            (make_account rt program_id tx payer sys minimum_balance (proposed ms.key m ix i) s)
            r
        → Returns accounts ix s r
    proposes : {t : Store} → Proposed rt program_id accounts ix s t → Returns accounts ix s (ok t)

  module _ (ms proposer sys : AccountInfo) (ix : ProposeTransactionInstruction) (s : Store)
      (P : Result Store → Type 0)
      (fails : (e : ProgramError) → Reason ms proposer sys ix s e → P (err e)) where
    validate-cases :
        (next : Result Store) → P next → P (validate rt program_id ms proposer sys ix s >> next)
    unfolding validate
    validate-cases next go =
        let Q : Result Unit → Type 0 = λ r. P (r >> next) in
        assert_that-cases Q (program_id == (s ms.key).owner) account_owned_by_wrong_program _
          (λ f. fails _ (foreign_multisig (ground arith)))
          λ _.
            assert_that-cases Q (sys.key == rt.system_program) incorrect_program_id _
              (λ f. fails _ (other_program (ground arith)))
              λ _.
                assert_that-cases Q proposer.is_signer proposer_not_signer _
                  (λ f. fails _ (unsigned f))
                  λ _.
                    assert_that-last Q (not (is_empty ix.instructions)) missing_instructions
                      (λ f. fails _ (no_instructions (ground arith))) λ _. go

  -- Every result of propose_transaction, with keys and instructions of their types:
  -- NotEnoughAccountKeys on fewer than five accounts; an error only for its reason (the multisig
  -- is not the program's or is not read, the system program is another one, the proposer has not
  -- signed or is no owner, there is no instruction); the failure of the rent or of the system
  -- program, for an owner's proposal; else success: the transaction account was not in use, it
  -- now is the program's and holds the transaction with the multisig's sequence number and the
  -- proposer's vote only, and no other account's data or owner has changed.
  pub propose_transaction-Returns :
      (accounts : List AccountInfo) (ix : ProposeTransactionInstruction) (s : Store)
      → All (λ a. IsKey a.key) accounts
      → IsVec IsInstructionData ix.instructions
      → Returns accounts ix s (propose_transaction rt program_id accounts ix s)
  unfolding propose_transaction
  propose_transaction-Returns accounts ix s keys typed =
      let R : Result Store → Type 0 = λ r.
        ((t : Store) → r ≡ ok t → Proposed rt program_id accounts ix s t)
        → Returns accounts ix s r in
      accounts5-cases rt R accounts _ (λ few done. too_few few)
        (λ ms tx proposer payer sys rest given.
          validate-cases ms proposer sys ix s R (λ e reason done. refused given reason) _
            (multisig-cases rt R s ms.key _ (λ e done. refused given (no_multisig e))
              λ m hm.
                assert_present-cases R (position m.owners proposer.key) invalid_owner _
                  (λ e done. refused given (
                    no_owner hm (
                      contains_nowhere m.owners proposer.key
                        (position-none m.owners proposer.key e))))
                  λ i found.
                    let n = length m.owners in
                    let at = position-some m.owners proposer.key i found in
                    let within : i < length (replicate n false) =
                      omega (
                        arith,
                        get_elem?-lt m.owners i proposer.key at,
                        length-replicate n false,
                      ) in
                    rw (lt→ltb i (length (replicate n false)) within) (
                      Failed-cases R rt.rent_get _ (λ r f done. no_rent f)
                        λ minimum_balance rent.
                          Failed-cases R
                            (make_account rt program_id tx payer sys minimum_balance
                              (proposed ms.key m ix i) s)
                            _ (λ r f done. not_made i minimum_balance given hm at f)
                            λ made e.
                              let (_, _, new) = rt.create_account_new _ _ _ _ _ _ s made e in
                              rw
                                (store_transaction-exact rt tx (proposed ms.key m ix i) made
                                  (ap (λ (a : Account). a.bytes) new))
                                (λ done. proposes (done _ refl)))))
        (λ t h. propose_transaction-Proposed rt program_id accounts ix s t keys typed h)
