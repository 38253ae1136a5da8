-- ===== src/Client/Written.antt =====
-- The data of each function's instruction is the program's encoding of the instruction that is
-- meant (ts/instructions, program/src/processor.rs).
use multisig_native.Base.{ℕ, ◌≡◌, refl, List, map-map, append-nil, Option, some, arith}
use multisig_native.Sdk.{Borsh, Pubkey, AccountMeta, IsKey, IsVec}
use multisig_native.State.InstructionData.{IsInstructionData, instruction_data_codec}
use multisig_native.Processor.{IsInstruction, instruction_codec}
use multisig_native.Client.Js.{array_of, buffer, assign_each, assignable}
use multisig_native.Client.Packages.{Packages, TransactionInstruction}
use multisig_native.Client.Discriminator.{discriminator}
use multisig_native.Client.Instructions.{
  create_multisig_schema, create_multisig_to_buffer, create_create_multisig_instruction,
  set_owners_schema, set_owners_to_buffer, create_set_owners_instruction, change_threshold_schema,
  change_threshold_to_buffer, create_change_threshold_instruction,
  set_owners_and_change_threshold_schema, set_owners_and_change_threshold_to_buffer,
  create_set_owners_and_change_threshold_instruction, instruction_schema,
  propose_transaction_schema, account_object, instruction_object, propose_transaction_to_buffer,
  create_propose_transaction_instruction, approve_transaction_schema, approve_transaction_to_buffer,
  create_approve_transaction_instruction, execute_transaction_schema, execute_transaction_to_buffer,
  create_execute_transaction_instruction, cancel_transaction_schema, cancel_transaction_to_buffer,
  create_cancel_transaction_instruction, with_data, keys_schema,
}
use multisig_native.Client.Values.{account_value, instruction_value, instruction_value-write}
use multisig_native.Client.Encoded.{
  serialize-number, serialize-array_of, serialize-array_of_same, serialize-key,
}
use multisig_native.Client.Requests.{
  Request, create_multisig, set_owners, change_threshold, set_owners_and_change_threshold,
  propose_transaction, approve_transaction, execute_transaction, cancel_transaction, account_of,
  data_of, build, meant,
}

module _ (b : Borsh) (js : Packages) where
  -- The object of a proposed instruction is the value of the data that it stands for.
  instruction_object_lem :
      (ix : TransactionInstruction) → instruction_object js ix ≡ instruction_value js (data_of ix)
  unfolding instruction_object account_object
  instruction_object_lem ix = rw (map-map (account_value js) account_of ix.keys) refl

  instruction_object-write :
      (ix : TransactionInstruction)
      → IsInstructionData (data_of ix)
      → js.serialize instruction_schema (instruction_object js ix)
        ≡ some ((instruction_data_codec b).write (data_of ix))
  instruction_object-write ix fits =
      rw (instruction_object_lem ix) (instruction_value-write js b (data_of ix) fits)

  owners_write :
      (owners : List Pubkey)
      → IsVec IsKey owners
      → js.serialize keys_schema (array_of (λ owner. buffer (js.to_buffer owner)) owners)
        ≡ some ((b.vec b.pubkey).write owners)
  owners_write owners fits =
      serialize-array_of_same b js b.pubkey _ _ owners (serialize-key b js) fits

  -- The request is built, and its data is the encoding of the instruction that is meant.
  abbrev pub IsBuilt : Request → Type 0
  IsBuilt r =
      (ix : TransactionInstruction) × (build js r ≡ some ix)
      × (ix.bytes ≡ (instruction_codec b).write (meant r))

  with_data-ok :
      (keys : List AccountMeta) (program_id : Pubkey) (o : Option (List ℕ)) (bytes : List ℕ)
      → o ≡ some bytes
      → (ix : TransactionInstruction) × (with_data keys program_id o ≡ some ix) × (ix.bytes ≡ bytes)
  with_data-ok keys program_id o bytes h =
      (record { keys = keys; program_id = program_id; bytes = bytes }, rw h, refl)

  pub build-IsBuilt : (r : Request) → IsInstruction (meant r) → IsBuilt r
  unfolding build meant create_create_multisig_instruction create_multisig_to_buffer
      create_multisig_schema create_set_owners_instruction set_owners_to_buffer set_owners_schema
      create_change_threshold_instruction change_threshold_to_buffer change_threshold_schema
      create_set_owners_and_change_threshold_instruction set_owners_and_change_threshold_to_buffer
      set_owners_and_change_threshold_schema create_propose_transaction_instruction
      propose_transaction_to_buffer propose_transaction_schema
      create_approve_transaction_instruction approve_transaction_to_buffer
      approve_transaction_schema create_execute_transaction_instruction
      execute_transaction_to_buffer execute_transaction_schema create_cancel_transaction_instruction
      cancel_transaction_to_buffer cancel_transaction_schema assignable assign_each discriminator
      instruction_codec
  build-IsBuilt (create_multisig program_id threshold owners nonce account signer payer system)
        fits =
      with_data-ok _ _ _ _ (
        rw
          (
            js.serialize_struct,
            serialize-number b js 0 (omega arith),
            serialize-array_of b js b.pubkey _ _ (λ owner. owner.public_key) owners
                (λ owner. serialize-key b js owner.public_key) fits.0,
            serialize-number b js threshold fits.1.0,
            serialize-number b js nonce fits.1.1,
            append-nil,
          )
          refl)
  build-IsBuilt (set_owners signer account owners program_id) fits = with_data-ok _ _ _ _ (
      rw
        (
          js.serialize_struct,
          serialize-number b js 1 (omega arith),
          owners_write owners fits,
          append-nil,
        )
        refl)
  build-IsBuilt (change_threshold signer account threshold program_id) fits = with_data-ok _ _ _ _ (
      rw
        (
          js.serialize_struct,
          serialize-number b js 2 (omega arith),
          serialize-number b js threshold fits,
          append-nil,
        )
        refl)
  build-IsBuilt (set_owners_and_change_threshold signer account owners threshold program_id) fits =
      with_data-ok _ _ _ _ (
        rw
          (
            js.serialize_struct,
            serialize-number b js 3 (omega arith),
            owners_write owners fits.0,
            serialize-number b js threshold fits.1,
            append-nil,
          )
          refl)
  build-IsBuilt
        (propose_transaction account transaction proposer payer program_id ixs signed system) fits =
      with_data-ok _ _ _ _ (
        rw
          (
            js.serialize_struct,
            serialize-number b js 4 (omega arith),
            serialize-array_of b js (instruction_data_codec b) instruction_schema
                (instruction_object js) data_of ixs instruction_object-write fits,
            append-nil,
          )
          refl)
  build-IsBuilt (approve_transaction account transaction approver program_id signed writable) fits =
      with_data-ok _ _ _ _
        (rw (js.serialize_struct, serialize-number b js 5 (omega arith), append-nil) refl)
  build-IsBuilt
        (execute_transaction account signer transaction refundee executor remaining program_id)
        fits =
      with_data-ok _ _ _ _
        (rw (js.serialize_struct, serialize-number b js 6 (omega arith), append-nil) refl)
  build-IsBuilt (cancel_transaction account transaction refundee executor program_id) fits =
      with_data-ok _ _ _ _
        (rw (js.serialize_struct, serialize-number b js 7 (omega arith), append-nil) refl)
