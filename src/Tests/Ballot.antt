-- ===== src/Tests/Ballot.antt =====
-- The ballot of the scenario's multisig.
use multisig_native.Errors.{ok}
use multisig_native.Instructions.ExecuteTransaction.{ValidatedAccounts, validate}
use multisig_native.Base.{◌↔◌, ◌≡◌, refl, true, false, [], ◌∷◌, some, none, arith}
use multisig_native.Errors.Unique.{IsUnique, assert_unique_owners_iff}
use multisig_native.Errors.{assert_unique_owners}
use multisig_native.State.InstructionData.{IsInstructionData}
use multisig_native.State.TransactionAccount.{Transaction}
use multisig_native.State.Saved.{HoldsTransaction}
use multisig_native.Lifecycle.Ballot.{keys, opened, approved, passes, holds, size, with_key}
use multisig_native.Lifecycle.Signatories.{signatories}
use multisig_native.Lifecycle.Ballot.Views.{ballot}
use multisig_native.Lifecycle.Ballot.Refined.{
  approve_transaction-approved, propose_transaction-opened, execute_transaction-passes,
  validate-passes,
}
use multisig_native.Tests.Machine.{machine}
use multisig_native.Tests.Calls.{three_owners, transfer_votes}
use multisig_native.Tests.Executions.{execute-IsReady}
use multisig_native.Tests.Scenario
use multisig_native.Tests.Scenario.{
  vault, vault_signer, program, program_id, account, created, proposed, executed, execute_accounts,
  propose_ix, transfer,
}

three_owners-IsUnique : IsUnique three_owners.owners
unfolding assert_unique_owners
three_owners-IsUnique = (assert_unique_owners_iff three_owners.owners).0 refl

transfer_fits : IsInstructionData transfer
transfer_fits = record {
  program_id_fits = omega arith;
  accounts_fit = (omega arith, (omega arith, (omega arith, tt)));
  bytes_fit = (omega arith, (omega arith, tt));
}

propose_transaction-opened_example :
    (t : Transaction) × HoldsTransaction machine proposed 20 t
    × (opened (keys three_owners.owners) three_owners.threshold 1 ≡ some (ballot three_owners t))
unfolding program proposed created
propose_transaction-opened_example =
    propose_transaction-opened machine program_id (account vault false) (account 20 true)
      (account 1 true) (account 30 true ∷ account 0 false ∷ []) propose_ix three_owners created
      proposed (omega arith, (omega arith, (omega arith, (omega arith, (omega arith, tt)))))
      (omega arith, (transfer_fits, tt)) refl refl

approve_transaction-approved_example :
    (t : Transaction) × HoldsTransaction machine Scenario.approved 20 t
    × (approved 2 (ballot three_owners (transfer_votes (true ∷ false ∷ false ∷ [])))
        ≡ some (ballot three_owners t))
unfolding program proposed Scenario.approved
approve_transaction-approved_example =
    approve_transaction-approved machine program_id (account vault false) (account 20 false)
      (account 2 true) [] three_owners (transfer_votes (true ∷ false ∷ false ∷ [])) proposed
      Scenario.approved refl refl three_owners-IsUnique refl

execute_transaction-passes_example :
    passes (ballot three_owners (transfer_votes (true ∷ true ∷ false ∷ []))) ≡ true
unfolding program executed Scenario.approved
execute_transaction-passes_example =
    execute_transaction-passes machine program_id (account vault false) (account vault_signer false)
      (account 20 false) (account 30 false ∷ account 3 true ∷ account 40 false ∷ []) three_owners
      (transfer_votes (true ∷ true ∷ false ∷ [])) Scenario.approved executed refl refl (omega arith)
      refl

validate-passes_example :
    ((v : ValidatedAccounts) × (validate machine program_id execute_accounts Scenario.approved
        ≡ ok v))
    ↔ (passes (ballot three_owners (transfer_votes (true ∷ true ∷ false ∷ []))) ≡ true)
unfolding program Scenario.approved
validate-passes_example =
    validate-passes machine program_id (account vault false) (account vault_signer false)
      (account 20 false) (account 30 false) (account 3 true) (account 40 false ∷ []) three_owners
      (transfer_votes (true ∷ true ∷ false ∷ [])) Scenario.approved execute-IsReady (omega arith)
      (omega arith)

-- With the proposer's vote alone it does not pass, and a stranger has none.
one_vote : passes (ballot three_owners (transfer_votes (true ∷ false ∷ false ∷ []))) ≡ false
unfolding passes ballot size signatories
one_vote = refl

stranger_vote : approved 9 (ballot three_owners (transfer_votes (true ∷ false ∷ false ∷ []))) ≡ none
unfolding approved ballot holds with_key
stranger_vote = refl
