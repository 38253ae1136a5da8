-- ===== src/Client/Instructions/Proposals.antt =====
-- ts/instructions/proposeTransaction.ts, approveTransaction.ts, executeTransaction.ts and
-- cancelTransaction.ts. A function returns `none` where the encoding throws.
use multisig_native.Base.{ℕ, Bool, true, false, List, [], ◌∷◌, ◌++◌, Option}
use multisig_native.Sdk.{Pubkey, AccountMeta}
use multisig_native.Client.Js.{
  Value, number, boolean, object, array_of, buffer, end, property, assignable,
}
use multisig_native.Client.Packages.{
  Schema, u8, bool, fixed_array, dynamic_array, struct, fields_end, field, Packages,
  TransactionInstruction,
}
use multisig_native.Client.Discriminator.{discriminator}
use multisig_native.Client.Discriminator
use multisig_native.Client.Instructions.Owners.{meta, with_data}

-- The schema of an account of a proposed instruction, and of the instruction.
unfoldable pub account_schema : Schema
account_schema = struct (
    field "pubkey" (fixed_array u8 32)
      (field "is_signer" bool (field "is_writable" bool fields_end)))

unfoldable pub instruction_schema : Schema
unfolding account_schema
instruction_schema = struct (
    field "program_id" (fixed_array u8 32) (
      field "accounts" (dynamic_array account_schema) (field "data" (dynamic_array u8) fields_end)))

unfoldable pub propose_transaction_schema : Schema
unfolding instruction_schema
propose_transaction_schema = struct (
    field "instructionDiscriminator" u8
      (field "instructions" (dynamic_array instruction_schema) fields_end))

unfoldable pub approve_transaction_schema : Schema
approve_transaction_schema = struct (field "instructionDiscriminator" u8 fields_end)

unfoldable pub execute_transaction_schema : Schema
execute_transaction_schema = struct (field "instructionDiscriminator" u8 fields_end)

unfoldable pub cancel_transaction_schema : Schema
cancel_transaction_schema = struct (field "instructionDiscriminator" u8 fields_end)

module _ (js : Packages) where
  -- What the callbacks of `map` make of an account and of an instruction.
  unfoldable pub account_object : AccountMeta → Value
  account_object key = object (
      property "pubkey" (buffer (js.to_buffer key.pubkey)) (
        property "is_signer" (boolean key.is_signer)
          (property "is_writable" (boolean key.is_writable) end)))

  unfoldable pub instruction_object : TransactionInstruction → Value
  unfolding account_object
  instruction_object ix = object (
      property "program_id" (buffer (js.to_buffer ix.program_id)) (
        property "accounts" (array_of account_object ix.keys)
          (property "data" (buffer ix.bytes) end)))

  unfoldable pub propose_transaction_to_buffer : Value → Option (List ℕ)
  unfolding propose_transaction_schema
  propose_transaction_to_buffer this = js.serialize propose_transaction_schema this

  unfoldable pub create_propose_transaction_instruction :
      Pubkey
      → Pubkey
      → Pubkey
      → Pubkey
      → Pubkey
      → List TransactionInstruction
      → Bool
      → Pubkey
      → Option TransactionInstruction
  unfolding propose_transaction_to_buffer instruction_object discriminator assignable
  create_propose_transaction_instruction multisig_account transaction_account proposer payer
        program_id instructions proposer_is_signer system_program_id =
      with_data
        (meta multisig_account false false
          ∷ meta transaction_account true true
          ∷ meta proposer proposer_is_signer false
          ∷ meta payer true false
          ∷ meta system_program_id false false
          ∷ [])
        program_id
        (propose_transaction_to_buffer (
          assignable (
            property "instructionDiscriminator"
              (number (discriminator Discriminator.propose_transaction))
              (property "instructions" (array_of instruction_object instructions) end))))

  unfoldable pub approve_transaction_to_buffer : Value → Option (List ℕ)
  unfolding approve_transaction_schema
  approve_transaction_to_buffer this = js.serialize approve_transaction_schema this

  unfoldable pub create_approve_transaction_instruction :
      Pubkey → Pubkey → Pubkey → Pubkey → Bool → Bool → Option TransactionInstruction
  unfolding approve_transaction_to_buffer discriminator assignable
  create_approve_transaction_instruction multisig_account transaction_account approver program_id
        approver_is_signer transaction_is_writable =
      with_data
        (meta multisig_account false false
          ∷ meta transaction_account false transaction_is_writable
          ∷ meta approver approver_is_signer false
          ∷ [])
        program_id
        (approve_transaction_to_buffer (
          assignable (
            property "instructionDiscriminator"
              (number (discriminator Discriminator.approve_transaction)) end)))

  unfoldable pub execute_transaction_to_buffer : Value → Option (List ℕ)
  unfolding execute_transaction_schema
  execute_transaction_to_buffer this = js.serialize execute_transaction_schema this

  unfoldable pub create_execute_transaction_instruction :
      Pubkey
      → Pubkey
      → Pubkey
      → Pubkey
      → Pubkey
      → List AccountMeta
      → Pubkey
      → Option TransactionInstruction
  unfolding execute_transaction_to_buffer discriminator assignable
  create_execute_transaction_instruction multisig_account multisig_signer transaction_account
        refundee executor remaining_accounts program_id =
      let accounts =
        meta multisig_account false false
        ∷ meta multisig_signer false false
        ∷ meta transaction_account false true
        ∷ meta refundee false true
        ∷ meta executor true false
        ∷ [] in
      with_data (accounts ++ remaining_accounts) program_id (
        execute_transaction_to_buffer (
          assignable (
            property "instructionDiscriminator"
              (number (discriminator Discriminator.execute_transaction)) end)))

  unfoldable pub cancel_transaction_to_buffer : Value → Option (List ℕ)
  unfolding cancel_transaction_schema
  cancel_transaction_to_buffer this = js.serialize cancel_transaction_schema this

  unfoldable pub create_cancel_transaction_instruction :
      Pubkey → Pubkey → Pubkey → Pubkey → Pubkey → Option TransactionInstruction
  unfolding cancel_transaction_to_buffer discriminator assignable
  create_cancel_transaction_instruction multisig_account transaction_account refundee executor
        program_id =
      with_data
        (meta multisig_account false false
          ∷ meta transaction_account false true
          ∷ meta refundee false true
          ∷ meta executor true false
          ∷ [])
        program_id
        (cancel_transaction_to_buffer (
          assignable (
            property "instructionDiscriminator"
              (number (discriminator Discriminator.cancel_transaction)) end)))
