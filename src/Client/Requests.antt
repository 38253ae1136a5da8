-- ===== src/Client/Requests.antt =====
-- What the client asks for with each function of ts/instructions, in the program's words
-- (`MultisigInstruction`, program/src/processor.rs).
use multisig_native.Base.{ℕ, Bool, List, map, Option}
use multisig_native.Sdk.{Pubkey, AccountMeta}
use multisig_native.State.InstructionData.{
  TransactionInstructionAccount, TransactionInstructionData,
}
use multisig_native.Processor.{
  MultisigInstruction, create_multisig_ix, set_owners_ix, change_threshold_ix,
  set_owners_and_change_threshold_ix, propose_transaction_ix, approve_transaction_ix,
  execute_transaction_ix, cancel_transaction_ix,
}
use multisig_native.Client.Packages.{Packages, TransactionInstruction, Keypair}
use multisig_native.Client.Instructions.{
  create_create_multisig_instruction, create_set_owners_instruction,
  create_change_threshold_instruction, create_set_owners_and_change_threshold_instruction,
  create_propose_transaction_instruction, create_approve_transaction_instruction,
  create_execute_transaction_instruction, create_cancel_transaction_instruction,
}

-- A call of a function of the client, with its arguments.
pub data Request : Type 0 where
  create_multisig :
      (program_id : Pubkey) (threshold : ℕ) (owners : List Keypair) (nonce : ℕ)
      (multisig_account multisig_signer payer system_program_id : Pubkey)
      → Request
  set_owners :
      (multisig_signer multisig_account : Pubkey) (owners : List Pubkey) (program_id : Pubkey)
      → Request
  change_threshold :
      (multisig_signer multisig_account : Pubkey) (threshold : ℕ) (program_id : Pubkey) → Request
  set_owners_and_change_threshold :
      (multisig_signer multisig_account : Pubkey) (owners : List Pubkey) (threshold : ℕ)
      (program_id : Pubkey)
      → Request
  propose_transaction :
      (multisig_account transaction_account proposer payer program_id : Pubkey)
      (instructions : List TransactionInstruction) (proposer_is_signer : Bool)
      (system_program_id : Pubkey)
      → Request
  approve_transaction :
      (multisig_account transaction_account approver program_id : Pubkey)
      (approver_is_signer transaction_is_writable : Bool)
      → Request
  execute_transaction :
      (multisig_account multisig_signer transaction_account refundee executor : Pubkey)
      (remaining_accounts : List AccountMeta) (program_id : Pubkey)
      → Request
  cancel_transaction :
      (multisig_account transaction_account refundee executor program_id : Pubkey) → Request

-- The call's result.
unfoldable pub build : Packages → Request → Option TransactionInstruction
build js (create_multisig program_id threshold owners nonce account signer payer system) =
    create_create_multisig_instruction js program_id threshold owners nonce account signer payer
      system
build js (set_owners signer account owners program_id) =
    create_set_owners_instruction js signer account owners program_id
build js (change_threshold signer account threshold program_id) =
    create_change_threshold_instruction js signer account threshold program_id
build js (set_owners_and_change_threshold signer account owners threshold program_id) =
    create_set_owners_and_change_threshold_instruction js signer account owners threshold program_id
build js (propose_transaction account transaction proposer payer program_id ixs signed system) =
    create_propose_transaction_instruction js account transaction proposer payer program_id ixs
      signed system
build js (approve_transaction account transaction approver program_id signed writable) =
    create_approve_transaction_instruction js account transaction approver program_id signed
      writable
build js (execute_transaction account signer transaction refundee executor remaining program_id) =
    create_execute_transaction_instruction js account signer transaction refundee executor remaining
      program_id
build js (cancel_transaction account transaction refundee executor program_id) =
    create_cancel_transaction_instruction js account transaction refundee executor program_id

-- An instruction of the client in the program's type.
abbrev pub account_of : AccountMeta → TransactionInstructionAccount
account_of key = record {
  pubkey = key.pubkey;
  is_signer = key.is_signer;
  is_writable = key.is_writable;
}

abbrev pub data_of : TransactionInstruction → TransactionInstructionData
data_of ix = record {
  program_id = ix.program_id;
  accounts = map account_of ix.keys;
  bytes = ix.bytes;
}

-- The instruction that is meant.
unfoldable pub meant : Request → MultisigInstruction
meant (create_multisig program_id threshold owners nonce account signer payer system) =
    create_multisig_ix (record {
      owners = map (λ owner. owner.public_key) owners;
      threshold = threshold;
      nonce = nonce;
    })
meant (set_owners signer account owners program_id) = set_owners_ix (record { owners = owners })
meant (change_threshold signer account threshold program_id) =
    change_threshold_ix (record { threshold = threshold })
meant (set_owners_and_change_threshold signer account owners threshold program_id) =
    set_owners_and_change_threshold_ix (record { owners = owners; threshold = threshold })
meant (propose_transaction account transaction proposer payer program_id ixs signed system) =
    propose_transaction_ix (record { instructions = map data_of ixs })
meant (approve_transaction account transaction approver program_id signed writable) =
    approve_transaction_ix
meant (execute_transaction account signer transaction refundee executor remaining program_id) =
    execute_transaction_ix
meant (cancel_transaction account transaction refundee executor program_id) = cancel_transaction_ix
