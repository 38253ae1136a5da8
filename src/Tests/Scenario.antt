-- ===== src/Tests/Scenario.antt =====
-- The life of a multisig of three owners, two of whom have to sign: it is created, a transfer is
-- proposed, approved by a second owner and executed.
use multisig_native.Base.{
  ◌≡◌, refl, Bool, true, false, List, [], ◌∷◌, position, ◌==◌, if◌then◌else◌,
}
use multisig_native.Errors.{Result, ok, err, panicked, custom, assert_unique_owners}
use multisig_native.Sdk.{Pubkey, AccountInfo, Store, put}
use multisig_native.State.MultisigAccount.{Multisig, multisig_codec}
use multisig_native.State.MultisigAccount
use multisig_native.State.InstructionData.{
  TransactionInstructionAccount, TransactionInstructionData, instruction_data_codec,
  instruction_account_codec, account_meta, instruction,
}
use multisig_native.State.InstructionData
use multisig_native.State.TransactionAccount.{Transaction, transaction_codec}
use multisig_native.State.TransactionAccount
use multisig_native.State.Save.{store_multisig, store_transaction}
use multisig_native.State.Stored.{multisig_bytes, transaction_bytes}
use multisig_native.Common.{
  padding_len, with_owners, validate_owners, validate_threshold, close_account,
  execute_change_threshold, execute_set_owners, validate_pda, validate_signer,
}
use multisig_native.Instructions.Accounts.{accounts2, accounts3, accounts4, accounts5}
use multisig_native.Instructions.CreateMultisig.{CreateMultisigInstruction, create_multisig}
use multisig_native.Instructions.CreateMultisig
use multisig_native.Instructions.SetOwners.{set_owners}
use multisig_native.Instructions.ChangeThreshold.{change_threshold}
use multisig_native.Instructions.SetOwnersAndChangeThreshold.{set_owners_and_change_threshold}
use multisig_native.Instructions.ProposeTransaction.{
  ProposeTransactionInstruction, propose_transaction,
}
use multisig_native.Instructions.ProposeTransaction
use multisig_native.Instructions.ApproveTransaction.{approve_transaction}
use multisig_native.Instructions.ApproveTransaction
use multisig_native.Instructions.ExecuteTransaction.{
  count_signed, sign_meta, signed_instruction, invoke_all, execute_transaction,
}
use multisig_native.Instructions.ExecuteTransaction
use multisig_native.Instructions.CancelTransaction.{cancel_transaction}
use multisig_native.Instructions.CancelTransaction
use multisig_native.Processor.{instruction_codec, dispatch, process_instruction}
use multisig_native.Tests.LittleEndian.{read_uint}
use multisig_native.Sdk.{little_endian}
use multisig_native.Tests.Vectors.{write_items, read_items}
use multisig_native.Tests.Machine.{machine}

-- Named on the `unfolding` line of a test, this runs the whole program.
unfoldable pub program : Unit {0}
unfolding position assert_unique_owners put MultisigAccount.len multisig_codec
    MultisigAccount.checked_deserialize InstructionData.len instruction_data_codec
    instruction_account_codec account_meta instruction TransactionAccount.len transaction_codec
    TransactionAccount.checked_deserialize store_multisig store_transaction multisig_bytes
    transaction_bytes padding_len with_owners validate_owners validate_threshold close_account
    execute_change_threshold execute_set_owners validate_pda validate_signer accounts2 accounts3
    accounts4 accounts5 create_multisig CreateMultisig.validate set_owners change_threshold
    set_owners_and_change_threshold propose_transaction ProposeTransaction.validate
    approve_transaction ApproveTransaction.validate count_signed sign_meta signed_instruction
    invoke_all execute_transaction ExecuteTransaction.validate cancel_transaction
    CancelTransaction.validate instruction_codec dispatch process_instruction little_endian
    read_uint write_items read_items
program = tt

-- The store after a call that succeeded.
abbrev pub result : Store → Result Store → Store
result s (ok t) = t
result s (err e) = s
result s panicked = s

abbrev pub program_id : Pubkey
program_id = 7

-- The multisig's key, whose first bytes are no number of owners, and the address derived from it.
abbrev pub vault : Pubkey
vault = 4000000010

abbrev pub vault_signer : Pubkey
vault_signer = 4000000110

abbrev pub account : Pubkey → Bool → AccountInfo
account key is_signer = record { key = key; is_signer = is_signer; is_writable = true }

-- The payer 30 has lamports, and so has the multisig's address 110.
abbrev pub initial : Store
initial k =
    if k == 30
    then record { lamports = 100000; bytes = []; owner = 0 }
    else if k == vault_signer
    then record { lamports = 50; bytes = []; owner = 0 }
    else record { lamports = 0; bytes = []; owner = 0 }

abbrev pub create_accounts : List AccountInfo
create_accounts =
    account vault true ∷ account vault_signer false ∷ account 30 true ∷ account 0 false ∷ []

abbrev pub create_ix : CreateMultisigInstruction
create_ix = record { owners = 1 ∷ 2 ∷ 3 ∷ []; threshold = 2; nonce = 255 }

unfoldable pub created : Store
unfolding program
created = result initial (create_multisig machine program_id create_accounts create_ix initial)

abbrev pub transfer : TransactionInstructionData
transfer = record {
  program_id = 0;
  accounts =
      record { pubkey = vault_signer; is_signer = false; is_writable = true }
      ∷ record { pubkey = 40; is_signer = false; is_writable = true }
      ∷ [];
  bytes = 5 ∷ [];
}

abbrev pub propose_accounts : List AccountInfo
propose_accounts =
    account vault false ∷ account 20 true ∷ account 1 true ∷ account 30 true ∷ account 0 false ∷ []

abbrev pub propose_ix : ProposeTransactionInstruction
propose_ix = record { instructions = transfer ∷ [] }

unfoldable pub proposed : Store
unfolding program created
proposed =
    result created (propose_transaction machine program_id propose_accounts propose_ix created)

abbrev pub approve_accounts : List AccountInfo
approve_accounts = account vault false ∷ account 20 false ∷ account 2 true ∷ []

unfoldable pub approved : Store
unfolding program proposed
approved = result proposed (approve_transaction machine program_id approve_accounts proposed)

abbrev pub execute_accounts : List AccountInfo
execute_accounts =
    account vault false
    ∷ account vault_signer false
    ∷ account 20 false
    ∷ account 30 false
    ∷ account 3 true
    ∷ account 40 false
    ∷ []

unfoldable pub executed : Store
unfolding program approved
executed = result approved (execute_transaction machine program_id execute_accounts approved)

-- The transfer has been made, and the rent of the transaction account paid back.
executed_balances :
    ((executed vault_signer).lamports ≡ 45)
    × ((executed 40).lamports ≡ 5)
    × ((executed 20).lamports ≡ 0)
unfolding program executed
executed_balances = (refl, refl, refl)

-- With the proposer's vote alone the transaction is not executed.
execute_too_early :
    execute_transaction machine program_id execute_accounts proposed ≡ err (custom 13)
unfolding program proposed
execute_too_early = refl
