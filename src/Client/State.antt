-- ===== src/Client/State.antt =====
-- ts/state: the schemas of the program's two kinds of account, and how the client reads them.
pub mod Reads
use multisig_native.Base.{ℕ, List, Option}
use multisig_native.Client.Js.{Value}
use multisig_native.Client.Packages.{
  Schema, u8, u32, bool, fixed_array, dynamic_array, struct, fields_end, field, Packages,
}

-- `MultisigSchema`
unfoldable pub multisig_schema : Schema
multisig_schema = struct (
    field "owners" (dynamic_array (fixed_array u8 32)) (
      field "threshold" u8 (
        field "nonce" u8
          (field "owner_set_seqno" u32 (field "padding" (dynamic_array u8) fields_end)))))

-- `TransactionSchema`
unfoldable pub transaction_schema : Schema
transaction_schema = struct (
    field "multisig" (fixed_array u8 32) (
      field "instructions"
        (dynamic_array (
          struct (
            field "program_id" (fixed_array u8 32) (
              field "accounts"
                (dynamic_array (
                  struct (
                    field "pubkey" (fixed_array u8 32)
                      (field "is_signer" bool (field "is_writable" bool fields_end)))))
                (field "data" (dynamic_array u8) fields_end)))))
        (field "signers" (dynamic_array bool) (field "owner_set_seqno" u32 fields_end))))

module _ (js : Packages) where
  -- `Multisig.deserialize`; `none` where borsh throws.
  unfoldable pub deserialize_multisig : List ℕ → Option Value
  unfolding multisig_schema
  deserialize_multisig bytes = js.deserialize multisig_schema bytes

  -- `Transaction.deserialize`
  unfoldable pub deserialize_transaction : List ℕ → Option Value
  unfolding transaction_schema
  deserialize_transaction bytes = js.deserialize transaction_schema bytes
