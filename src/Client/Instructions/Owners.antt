-- ===== src/Client/Instructions/Owners.antt =====
-- ts/instructions/createMultisig.ts, setOwners.ts, changeThreshold.ts and
-- setOwnersAndChangeThreshold.ts. A function returns `none` where the encoding throws.
use multisig_native.Base.{ℕ, Bool, true, false, List, [], ◌∷◌, Option, none, some}
use multisig_native.Sdk.{Pubkey, AccountMeta}
use multisig_native.Client.Js.{Value, number, array_of, buffer, end, property, assignable}
use multisig_native.Client.Packages.{
  Schema, u8, fixed_array, dynamic_array, struct, fields_end, field, Packages,
  TransactionInstruction, Keypair,
}
use multisig_native.Client.Discriminator.{discriminator}
use multisig_native.Client.Discriminator

-- `{pubkey, isSigner, isWritable}`
abbrev pub meta : Pubkey → Bool → Bool → AccountMeta
meta pubkey is_signer is_writable = record {
  pubkey = pubkey;
  is_signer = is_signer;
  is_writable = is_writable;
}

-- `new TransactionInstruction({keys, programId, data})`, its data from `toBuffer()`.
abbrev pub with_data : List AccountMeta → Pubkey → Option (List ℕ) → Option TransactionInstruction
with_data keys program_id none = none
with_data keys program_id (some bytes) =
    some (record { keys = keys; program_id = program_id; bytes = bytes })

-- `{array: {type: {array: {type: "u8", len: 32}}}}`
abbrev pub keys_schema : Schema
keys_schema = dynamic_array (fixed_array u8 32)

unfoldable pub create_multisig_schema : Schema
create_multisig_schema = struct (
    field "instructionDiscriminator" u8
      (field "owners" keys_schema (field "threshold" u8 (field "nonce" u8 fields_end))))

unfoldable pub set_owners_schema : Schema
set_owners_schema =
    struct (field "instructionDiscriminator" u8 (field "owners" keys_schema fields_end))

unfoldable pub change_threshold_schema : Schema
change_threshold_schema =
    struct (field "instructionDiscriminator" u8 (field "threshold" u8 fields_end))

unfoldable pub set_owners_and_change_threshold_schema : Schema
set_owners_and_change_threshold_schema = struct (
    field "instructionDiscriminator" u8
      (field "owners" keys_schema (field "threshold" u8 fields_end)))

module _ (js : Packages) where
  unfoldable pub create_multisig_to_buffer : Value → Option (List ℕ)
  unfolding create_multisig_schema
  create_multisig_to_buffer this = js.serialize create_multisig_schema this

  unfoldable pub create_create_multisig_instruction :
      Pubkey
      → ℕ
      → List Keypair
      → ℕ
      → Pubkey
      → Pubkey
      → Pubkey
      → Pubkey
      → Option TransactionInstruction
  unfolding create_multisig_to_buffer discriminator assignable
  create_create_multisig_instruction program_id threshold owners nonce multisig_account
        multisig_signer payer system_program_id =
      with_data
        (meta multisig_account true true
          ∷ meta multisig_signer false false
          ∷ meta payer true true
          ∷ meta system_program_id false false
          ∷ [])
        program_id
        (create_multisig_to_buffer (
          assignable (
            property "instructionDiscriminator"
              (number (discriminator Discriminator.create_multisig))
              (property "owners" (array_of (λ owner. buffer (js.to_buffer owner.public_key)) owners)
                (property "threshold" (number threshold) (property "nonce" (number nonce) end))))))

  unfoldable pub set_owners_to_buffer : Value → Option (List ℕ)
  unfolding set_owners_schema
  set_owners_to_buffer this = js.serialize set_owners_schema this

  unfoldable pub create_set_owners_instruction :
      Pubkey → Pubkey → List Pubkey → Pubkey → Option TransactionInstruction
  unfolding set_owners_to_buffer discriminator assignable
  create_set_owners_instruction multisig_signer multisig_account owners program_id =
      with_data (meta multisig_account false true ∷ meta multisig_signer true false ∷ []) program_id
        (set_owners_to_buffer (
          assignable (
            property "instructionDiscriminator" (number (discriminator Discriminator.set_owners))
              (property "owners" (array_of (λ owner. buffer (js.to_buffer owner)) owners) end))))

  unfoldable pub change_threshold_to_buffer : Value → Option (List ℕ)
  unfolding change_threshold_schema
  change_threshold_to_buffer this = js.serialize change_threshold_schema this

  unfoldable pub create_change_threshold_instruction :
      Pubkey → Pubkey → ℕ → Pubkey → Option TransactionInstruction
  unfolding change_threshold_to_buffer discriminator assignable
  create_change_threshold_instruction multisig_signer multisig_account threshold program_id =
      with_data (meta multisig_account false true ∷ meta multisig_signer true false ∷ []) program_id
        (change_threshold_to_buffer (
          assignable (
            property "instructionDiscriminator"
              (number (discriminator Discriminator.change_threshold))
              (property "threshold" (number threshold) end))))

  unfoldable pub set_owners_and_change_threshold_to_buffer : Value → Option (List ℕ)
  unfolding set_owners_and_change_threshold_schema
  set_owners_and_change_threshold_to_buffer this =
      js.serialize set_owners_and_change_threshold_schema this

  unfoldable pub create_set_owners_and_change_threshold_instruction :
      Pubkey → Pubkey → List Pubkey → ℕ → Pubkey → Option TransactionInstruction
  unfolding set_owners_and_change_threshold_to_buffer discriminator assignable
  create_set_owners_and_change_threshold_instruction multisig_signer multisig_account owners
        threshold program_id =
      with_data (meta multisig_account false true ∷ meta multisig_signer true false ∷ []) program_id
        (set_owners_and_change_threshold_to_buffer (
          assignable (
            property "instructionDiscriminator"
              (number (discriminator Discriminator.set_owners_and_change_threshold))
              (property "owners" (array_of (λ owner. buffer (js.to_buffer owner)) owners)
                (property "threshold" (number threshold) end)))))
