-- ===== src/Client/State/Reads.antt =====
-- What the client reads of the accounts that the program wrote (ts/state, program/src/state).
use multisig_native.Base.{ℕ, ◌≡◌, refl, List, [], append-nil, some}
use multisig_native.Errors.{ok}
use multisig_native.Sdk.{Borsh, IsKey}
use multisig_native.State.InstructionData.{IsInstructionData, instruction_data_codec}
use multisig_native.State.MultisigAccount.{Multisig, IsMultisig, multisig_codec}
use multisig_native.State.MultisigAccount
use multisig_native.State.TransactionAccount.{Transaction, IsTransaction, transaction_codec}
use multisig_native.State.TransactionAccount
use multisig_native.State.Stored.{
  multisig_bytes, transaction_bytes, multisig_stored, transaction_stored,
}
use multisig_native.Client.Js.{Value, number, boolean, object, array_of, buffer, end, property}
use multisig_native.Client.Packages.{Packages, u8, bool, fixed_array, Conforms, FieldsConform}
use multisig_native.Client.Instructions.{instruction_schema, account_schema}
use multisig_native.Client.Encoded.{
  serialize-number, serialize-boolean, serialize-seqno, serialize-array_of_same, serialize-key,
}
use multisig_native.Client.Values.{
  key_value, key_value-Conforms, buffer-Conforms, array_of-Conforms, instruction_value,
  instruction_value-Conforms, instruction_value-write,
}
use multisig_native.Client.State.{
  multisig_schema, transaction_schema, deserialize_multisig, deserialize_transaction,
}

module _ (js : Packages) where
  -- A multisig and a transaction as objects.
  abbrev pub multisig_value : Multisig → Value
  multisig_value m = object (
      property "owners" (array_of (key_value js) m.owners) (
        property "threshold" (number m.threshold) (
          property "nonce" (number m.nonce) (
            property "owner_set_seqno" (number m.owner_set_seqno)
              (property "padding" (buffer m.padding) end)))))

  abbrev pub transaction_value : Transaction → Value
  transaction_value t = object (
      property "multisig" (key_value js t.multisig) (
        property "instructions" (array_of (instruction_value js) t.instructions) (
          property "signers" (array_of boolean t.signers)
            (property "owner_set_seqno" (number t.owner_set_seqno) end))))

  multisig_value-Conforms :
      (m : Multisig) → IsMultisig m → Conforms multisig_schema (multisig_value m)
  unfolding Conforms FieldsConform multisig_schema
  multisig_value-Conforms m fits = (
    refl,
    refl,
    array_of-Conforms IsKey (fixed_array u8 32) (key_value js) m.owners (key_value-Conforms js)
        fits.owners_fit,
    (
      refl,
      refl,
      fits.threshold_fits,
      (
        refl,
        refl,
        fits.nonce_fits,
        (
          refl,
          refl,
          fits.seqno_fits,
          (refl, refl, buffer-Conforms m.padding fits.padding_fits, tt),
        ),
      ),
    ),
  )

  transaction_value-Conforms :
      (t : Transaction) → IsTransaction t → Conforms transaction_schema (transaction_value t)
  unfolding Conforms FieldsConform transaction_schema instruction_schema account_schema
  transaction_value-Conforms t fits = (
    refl,
    refl,
    key_value-Conforms js t.multisig fits.multisig_fits,
    (
      refl,
      refl,
      array_of-Conforms IsInstructionData instruction_schema (instruction_value js) t.instructions
          (instruction_value-Conforms js) fits.instructions_fit,
      (
        refl,
        refl,
        array_of-Conforms (λ v. Unit {0}) bool boolean t.signers (λ v h. tt) fits.signers_fit,
        (refl, refl, fits.seqno_fits, tt),
      ),
    ),
  )

module _ (b : Borsh) (js : Packages) where
  multisig_value-write :
      (m : Multisig)
      → IsMultisig m
      → js.serialize multisig_schema (multisig_value js m) ≡ some (multisig_bytes b m)
  unfolding multisig_schema multisig_bytes multisig_codec
  multisig_value-write m fits =
      rw
        (
          js.serialize_struct,
          serialize-array_of_same b js b.pubkey _ (key_value js) m.owners (serialize-key b js)
              fits.owners_fit,
          serialize-number b js m.threshold fits.threshold_fits,
          serialize-number b js m.nonce fits.nonce_fits,
          serialize-seqno b js m.owner_set_seqno fits.seqno_fits,
          serialize-array_of_same b js b.u8 _ number m.padding (serialize-number b js)
              fits.padding_fits,
          append-nil,
        )
        refl

  transaction_value-write :
      (t : Transaction)
      → IsTransaction t
      → js.serialize transaction_schema (transaction_value js t) ≡ some (transaction_bytes b t)
  unfolding transaction_schema instruction_schema account_schema transaction_bytes transaction_codec
  transaction_value-write t fits =
      rw
        (
          js.serialize_struct,
          serialize-key b js t.multisig fits.multisig_fits,
          serialize-array_of_same b js (instruction_data_codec b) instruction_schema
              (instruction_value js) t.instructions (instruction_value-write js b)
              fits.instructions_fit,
          serialize-array_of_same b js b.bool _ boolean t.signers (λ v h. serialize-boolean b js v)
              fits.signers_fit,
          serialize-seqno b js t.owner_set_seqno fits.seqno_fits,
          append-nil,
        )
        refl

  -- What the program reads as a multisig the client reads as the object with the same fields, and
  -- likewise for a transaction with its instructions and votes.
  pub deserialize-checked_deserialize :
      (bytes : List ℕ)
      → ((m : Multisig)
          → MultisigAccount.checked_deserialize b bytes ≡ ok m
          → deserialize_multisig js bytes ≡ some (multisig_value js m))
        × ((t : Transaction)
            → TransactionAccount.checked_deserialize b bytes ≡ ok t
            → deserialize_transaction js bytes ≡ some (transaction_value js t))
  unfolding deserialize_multisig deserialize_transaction
  deserialize-checked_deserialize bytes = (
    λ m h.
        let (whole, size, fits) = multisig_stored b bytes m h in
        rw (whole, ← append-nil (multisig_bytes b m))
          (js.deserialize-serialize multisig_schema (multisig_value js m) (multisig_bytes b m) []
            (multisig_value-Conforms js m fits) (multisig_value-write m fits)),
    λ t h.
        let (whole, size, fits) = transaction_stored b bytes t h in
        rw (whole, ← append-nil (transaction_bytes b t))
          (js.deserialize-serialize transaction_schema (transaction_value js t)
            (transaction_bytes b t) [] (transaction_value-Conforms js t fits)
            (transaction_value-write t fits)),
  )
