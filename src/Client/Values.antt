-- ===== src/Client/Values.antt =====
-- The JavaScript values of what the program stores, as the client encodes them and as its
-- schemas read them (ts/state).
use multisig_native.Base.{ℕ, ◌≡◌, refl, ◌∙◌, List, [], ◌∷◌, map, append-nil, some, All}
use multisig_native.Sdk.Bytes.{little_endian-All, length-little_endian}
use multisig_native.Sdk.{Borsh, Pubkey, IsU8, IsKey, IsVec, little_endian}
use multisig_native.State.InstructionData.{
  TransactionInstructionAccount, TransactionInstructionData, IsInstructionAccount,
  IsInstructionData, instruction_account_codec, instruction_data_codec,
}
use multisig_native.Client.Js.{
  Value, number, boolean, object, array_of, buffer, values, count-values, end, property,
}
use multisig_native.Client.Packages.{
  Schema, u8, fixed_array, dynamic_array, Conforms, AllConform, FieldsConform, Packages,
}
use multisig_native.Client.Instructions.{account_schema, instruction_schema}
use multisig_native.Client.Encoded.{
  serialize-number, serialize-boolean, serialize-array_of_same, serialize-key,
}

-- The items of an array conform to its schema.
pub AllConform-values :
    {A : Type 0} (F : A → Type 0) (s : Schema) (g : A → Value) (xs : List A)
    → ((x : A) → F x → Conforms s (g x))
    → All F xs
    → AllConform s (values (map g xs))
unfolding AllConform
AllConform-values F s g [] each h = tt
AllConform-values F s g (x ∷ xs) each (p, h) = (each x p, AllConform-values F s g xs each h)

pub array_of-Conforms :
    {A : Type 0} (F : A → Type 0) (s : Schema) (g : A → Value) (xs : List A)
    → ((x : A) → F x → Conforms s (g x))
    → IsVec F xs
    → Conforms (dynamic_array s) (array_of g xs)
unfolding Conforms
array_of-Conforms F s g xs each (small, h) =
    (rw (count-values g xs) small, AllConform-values F s g xs each h)

pub buffer-Conforms : (xs : List ℕ) → IsVec IsU8 xs → Conforms (dynamic_array u8) (buffer xs)
unfolding Conforms
buffer-Conforms xs h = array_of-Conforms IsU8 u8 number xs (λ n p. p) h

module _ (js : Packages) where
  abbrev pub key_value : Pubkey → Value
  key_value k = buffer (js.to_buffer k)

  pub key_value-Conforms : (k : Pubkey) → IsKey k → Conforms (fixed_array u8 32) (key_value k)
  unfolding Conforms
  key_value-Conforms k h = rw (js.to_buffer_lem k h) (
    count-values number (little_endian 32 k) ∙ length-little_endian 32 k,
    AllConform-values IsU8 u8 number (little_endian 32 k) (λ n p. p) (little_endian-All 32 k),
  )

  abbrev pub account_value : TransactionInstructionAccount → Value
  account_value a = object (
      property "pubkey" (key_value a.pubkey) (
        property "is_signer" (boolean a.is_signer)
          (property "is_writable" (boolean a.is_writable) end)))

  abbrev pub instruction_value : TransactionInstructionData → Value
  instruction_value ix = object (
      property "program_id" (key_value ix.program_id) (
        property "accounts" (array_of account_value ix.accounts)
          (property "data" (buffer ix.bytes) end)))

  account_value-Conforms :
      (a : TransactionInstructionAccount)
      → IsInstructionAccount a
      → Conforms account_schema (account_value a)
  unfolding Conforms FieldsConform account_schema
  account_value-Conforms a fits =
      (refl, refl, key_value-Conforms a.pubkey fits, (refl, refl, tt, (refl, refl, tt, tt)))

  pub instruction_value-Conforms :
      (ix : TransactionInstructionData)
      → IsInstructionData ix
      → Conforms instruction_schema (instruction_value ix)
  unfolding Conforms FieldsConform instruction_schema
  instruction_value-Conforms ix fits = (
    refl,
    refl,
    key_value-Conforms ix.program_id fits.program_id_fits,
    (
      refl,
      refl,
      array_of-Conforms IsInstructionAccount account_schema account_value ix.accounts
          account_value-Conforms fits.accounts_fit,
      (refl, refl, buffer-Conforms ix.bytes fits.bytes_fit, tt),
    ),
  )

  module _ (b : Borsh) where
    account_value-write :
        (a : TransactionInstructionAccount)
        → IsInstructionAccount a
        → js.serialize account_schema (account_value a)
          ≡ some ((instruction_account_codec b).write a)
    unfolding account_schema instruction_account_codec
    account_value-write a fits =
        rw
          (
            js.serialize_struct,
            serialize-key b js a.pubkey fits,
            serialize-boolean b js a.is_signer,
            serialize-boolean b js a.is_writable,
            append-nil,
          )
          refl

    pub instruction_value-write :
        (ix : TransactionInstructionData)
        → IsInstructionData ix
        → js.serialize instruction_schema (instruction_value ix)
          ≡ some ((instruction_data_codec b).write ix)
    unfolding instruction_schema instruction_data_codec
    instruction_value-write ix fits =
        rw
          (
            js.serialize_struct,
            serialize-key b js ix.program_id fits.program_id_fits,
            serialize-array_of_same b js (instruction_account_codec b) account_schema account_value
                ix.accounts account_value-write fits.accounts_fit,
            serialize-array_of_same b js b.u8 _ number ix.bytes (serialize-number b js)
                fits.bytes_fit,
            append-nil,
          )
          refl
