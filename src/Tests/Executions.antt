-- ===== src/Tests/Executions.antt =====
-- The theorems about executing a transaction, when it succeeds and when it is too early.
use multisig_native.Base.{◌≡◌, refl, true, false, [], ◌∷◌, arith}
use multisig_native.Errors.{ok, err, custom}
use multisig_native.Sdk.{Store}
use multisig_native.Common.Close.{Closed}
use multisig_native.Instructions.ExecuteTransaction.{invoke_all, execute_transaction}
use multisig_native.Instructions.ExecuteTransaction.Validated.{IsReady}
use multisig_native.Instructions.ExecuteTransaction.Executed.{
  Invokes, invoke_all-Invokes, execute_transaction_succeeds, execute_transaction_too_early,
}
use multisig_native.Tests.Machine.{machine}
use multisig_native.Tests.Scenario.{
  vault, vault_signer, program, program_id, result, account, proposed, approved, execute_accounts,
  transfer,
}
use multisig_native.Tests.Calls.{three_owners, transfer_votes}

pub execute-IsReady :
    IsReady machine program_id
      (account vault false)
      (account vault_signer false)
      (account 20 false)
      (account 30 false)
      (account 3 true)
      three_owners
      (transfer_votes (true ∷ true ∷ false ∷ []))
      approved
unfolding program approved
execute-IsReady = record {
  multisig_owned = refl;
  transaction_owned = refl;
  holds_multisig = refl;
  holds_transaction = refl;
  signed = refl;
  index = 2;
  owner = refl;
  same_owners = refl;
  signer = refl;
  writable = refl;
  belongs = refl;
  apart = omega arith;
  refundee_writable = refl;
}

transferred : Store
unfolding program approved
transferred = result approved (
    invoke_all machine vault_signer (record { address = vault; nonce = 255 }) execute_accounts
      (transfer ∷ []) approved)

transfer-Invokes :
    Invokes machine vault_signer
      (record { address = vault; nonce = 255 })
      execute_accounts
      (transfer ∷ [])
      approved
      transferred
unfolding program transferred
transfer-Invokes =
    invoke_all-Invokes machine vault_signer (record { address = vault; nonce = 255 })
      execute_accounts (transfer ∷ []) approved transferred refl

execute_transaction_succeeds_example :
    (t : Store) × (execute_transaction machine program_id execute_accounts approved ≡ ok t)
    × Closed machine (account 20 false) (account 30 false) transferred t
unfolding program transferred
execute_transaction_succeeds_example =
    execute_transaction_succeeds machine program_id (account vault false)
      (account vault_signer false) (account 20 false) (account 30 false) (account 3 true)
      (account 40 false ∷ []) three_owners (transfer_votes (true ∷ true ∷ false ∷ [])) approved
      transferred execute-IsReady (omega arith) transfer-Invokes (omega arith)

-- Once more with only the proposer's vote.
propose-IsReady :
    IsReady machine program_id
      (account vault false)
      (account vault_signer false)
      (account 20 false)
      (account 30 false)
      (account 3 true)
      three_owners
      (transfer_votes (true ∷ false ∷ false ∷ []))
      proposed
unfolding program proposed
propose-IsReady = record {
  multisig_owned = refl;
  transaction_owned = refl;
  holds_multisig = refl;
  holds_transaction = refl;
  signed = refl;
  index = 2;
  owner = refl;
  same_owners = refl;
  signer = refl;
  writable = refl;
  belongs = refl;
  apart = omega arith;
  refundee_writable = refl;
}

execute_transaction_too_early_example :
    execute_transaction machine program_id execute_accounts proposed ≡ err (custom 13)
unfolding program
execute_transaction_too_early_example =
    execute_transaction_too_early machine program_id (account vault false)
      (account vault_signer false) (account 20 false) (account 30 false) (account 3 true)
      (account 40 false ∷ []) three_owners (transfer_votes (true ∷ false ∷ false ∷ [])) proposed
      propose-IsReady (omega arith)
