-- ===== src/Tests/Outcomes.antt =====
-- The theorems about calls that succeed, at the calls of the scenario.
use multisig_native.Base.{◌≡◌, refl, true, false, [], ◌∷◌, ◌+◌, arith}
use multisig_native.Errors.{ok}
use multisig_native.Errors.Unique.{assert_unique_owners_iff}
use multisig_native.Sdk.{Store}
use multisig_native.State.Stored.{multisig_bytes, transaction_bytes}
use multisig_native.State.Saved.{with_bytes}
use multisig_native.Common.Close.{Closed}
use multisig_native.Instructions.CreateMultisig.{create_multisig, multisig_data}
use multisig_native.Instructions.CreateMultisig.Created.{
  MayCreate, make_account, create_multisig_succeeds,
}
use multisig_native.Instructions.ProposeTransaction.{propose_transaction}
use multisig_native.Instructions.ProposeTransaction.Proposed
use multisig_native.Instructions.ProposeTransaction.Success.{propose_transaction_succeeds}
use multisig_native.Instructions.CancelTransaction.{cancel_transaction}
use multisig_native.Instructions.CancelTransaction.Cancelled.{
  MayCancel, cancel_transaction_succeeds,
}
use multisig_native.Tests.Machine.{borsh, machine}
use multisig_native.Tests.Scenario.{
  vault, vault_signer, created, propose_accounts, propose_ix, program, program_id, result, account,
  initial, create_accounts, create_ix, proposed,
}
use multisig_native.Tests.Calls.{three_owners, transfer_votes}

create-MayCreate :
    MayCreate machine program_id
      (account vault true)
      (account vault_signer false)
      (account 0 false)
      create_ix
unfolding program
create-MayCreate = record {
  right_program = refl;
  unique = (assert_unique_owners_iff create_ix.owners).0 refl;
  positive = omega arith;
  reachable = omega arith;
  signer = refl;
}

made : Store
unfolding program
made = result initial (
    make_account machine program_id (account vault true) (account 30 true) (account 0 false)
      (λ n. n + 128) (multisig_data create_ix) initial)

create_multisig_succeeds_example :
    create_multisig machine program_id create_accounts create_ix initial
    ≡ ok (with_bytes made vault (multisig_bytes borsh (multisig_data create_ix)))
unfolding program made
create_multisig_succeeds_example =
    create_multisig_succeeds machine program_id (account vault true) (account vault_signer false)
      (account 30 true) (account 0 false) [] create_ix (λ n. n + 128) initial made create-MayCreate
      refl refl

cancel-MayCancel :
    MayCancel machine program_id
      (account vault false)
      (account 20 false)
      (account 30 false)
      (account 3 true)
      proposed
unfolding program proposed
cancel-MayCancel = record {
  multisig_owned = refl;
  transaction_owned = refl;
  multisig = three_owners;
  transaction = transfer_votes (true ∷ false ∷ false ∷ []);
  holds_multisig = refl;
  holds_transaction = refl;
  signed = refl;
  index = 2;
  owner = refl;
  not_newer = omega arith;
  belongs = refl;
  writable = refl;
  apart = omega arith;
  refundee_writable = refl;
}

cancel_transaction_succeeds_example :
    (t : Store) × (cancel_transaction machine program_id
        (account vault false ∷ account 20 false ∷ account 30 false ∷ account 3 true ∷ [])
        proposed
      ≡ ok t)
    × Closed machine (account 20 false) (account 30 false) proposed t
unfolding program proposed
cancel_transaction_succeeds_example =
    cancel_transaction_succeeds machine program_id (account vault false) (account 20 false)
      (account 30 false) (account 3 true) [] proposed cancel-MayCancel (omega arith)

-- The transaction account 20 has been made, and nothing is stored in it.
funded : Store
unfolding program created
funded = result created (
    Proposed.make_account machine program_id (account 20 true) (account 30 true) (account 0 false)
      (λ n. n + 128) (transfer_votes (true ∷ false ∷ false ∷ [])) created)

propose-MayPropose :
    Proposed.MayPropose machine program_id
      (account vault false)
      (account 1 true)
      (account 0 false)
      propose_ix
      created
unfolding program created
propose-MayPropose = record {
  multisig_owned = refl;
  right_program = refl;
  signed = refl;
  nonempty = λ e. cc;
}

propose_transaction_succeeds_example :
    propose_transaction machine program_id propose_accounts propose_ix created
    ≡ ok (
        with_bytes funded 20 (transaction_bytes borsh (transfer_votes (true ∷ false ∷ false ∷ []))))
unfolding program funded
propose_transaction_succeeds_example =
    propose_transaction_succeeds machine program_id (account vault false) (account 20 true)
      (account 1 true) (account 30 true) (account 0 false) [] propose_ix three_owners 0
      (λ n. n + 128) created funded refl propose-MayPropose refl refl refl
