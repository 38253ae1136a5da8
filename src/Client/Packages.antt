-- ===== src/Client/Packages.antt =====
-- What the client uses of the packages borsh and @solana/web3.js, none of which is code of the
-- repository, with their documented behaviour as laws.
use Prim.Native.String.{String}
use multisig_native.Base.{ℕ, ◌≡◌, Bool, List, [], ◌∷◌, ◌++◌, Option, none, some, if◌then◌else◌}
use multisig_native.Sdk.{Pubkey, AccountMeta, IsU8, IsU32, IsKey, little_endian}
use multisig_native.Client.Js.{
  Value, number, boolean, array, object, Values, nil, cons, count, Properties, end, property,
  lookup,
}

-- An array schema with its `len`, and one without.
mutual
  pub data Schema : Type 0 where
    u8 : Schema
    u32 : Schema
    bool : Schema
    fixed_array : Schema → ℕ → Schema
    dynamic_array : Schema → Schema
    struct : Fields → Schema

  pub data Fields : Type 0 where
    fields_end : Fields
    field : String → Schema → Fields → Fields

-- One encoding after another, if both are there.
abbrev pub after : Option (List ℕ) → Option (List ℕ) → Option (List ℕ)
after none bytes = none
after (some bytes) none = none
after (some bytes) (some more) = some (bytes ++ more)

abbrev pub serialize_items : (Value → Option (List ℕ)) → Values → Option (List ℕ)
serialize_items f nil = some []
serialize_items f (cons v vs) = after (f v) (serialize_items f vs)

-- The encoding of a property that may be missing.
abbrev pub serialize_property : (Value → Option (List ℕ)) → Option Value → Option (List ℕ)
serialize_property f none = none
serialize_property f (some v) = f v

abbrev pub serialize_fields :
    (Schema → Value → Option (List ℕ)) → Fields → Properties → Option (List ℕ)
serialize_fields f fields_end ps = some []
serialize_fields f (field name s fs) ps =
    after (serialize_property (f s) (lookup name ps)) (serialize_fields f fs ps)

-- A value as its schema reads it: numbers of their width, the properties of the struct in its
-- order, no name twice.
unfoldable mutual
  pub Conforms : Schema → Value → Type 0
  Conforms u8 (number n) = IsU8 n
  Conforms u32 (number n) = IsU32 n
  Conforms bool (boolean v) = Unit
  Conforms (fixed_array s n) (array vs) = (count vs ≡ n) × AllConform s vs
  Conforms (dynamic_array s) (array vs) = IsU32 (count vs) × AllConform s vs
  Conforms (struct fs) (object ps) = FieldsConform fs ps
  Conforms _ _ = ⊥

  pub AllConform : Schema → Values → Type 0
  AllConform s nil = Unit
  AllConform s (cons v vs) = Conforms s v × AllConform s vs

  pub FieldsConform : Fields → Properties → Type 0
  FieldsConform fields_end end = Unit
  FieldsConform (field name s fs) (property k v ps) =
      (k ≡ name) × (lookup k ps ≡ none) × Conforms s v × FieldsConform fs ps
  FieldsConform _ _ = ⊥

pub record Packages : Type 0 where
  -- `borsh.serialize(schema, value)`, `none` where it throws.
  pub serialize : Schema → Value → Option (List ℕ)
  pub serialize_u8 : (n : ℕ) → IsU8 n → serialize u8 (number n) ≡ some (little_endian 1 n)
  pub serialize_u32 : (n : ℕ) → IsU32 n → serialize u32 (number n) ≡ some (little_endian 4 n)
  pub serialize_bool : (v : Bool) → serialize bool (boolean v) ≡ some ((if v then 1 else 0) ∷ [])
  pub serialize_fixed :
      (s : Schema) (vs : Values)
      → serialize (fixed_array s (count vs)) (array vs) ≡ serialize_items (serialize s) vs
  pub serialize_array :
      (s : Schema) (vs : Values)
      → IsU32 (count vs)
      → serialize (dynamic_array s) (array vs)
        ≡ after (some (little_endian 4 (count vs))) (serialize_items (serialize s) vs)
  pub serialize_struct :
      (fs : Fields) (ps : Properties)
      → serialize (struct fs) (object ps) ≡ serialize_fields serialize fs ps
  -- `borsh.deserialize(schema, buffer)`, which takes a value off the front.
  pub deserialize : Schema → List ℕ → Option Value
  pub deserialize-serialize :
      (s : Schema) (v : Value) (bytes rest : List ℕ)
      → Conforms s v
      → serialize s v ≡ some bytes
      → deserialize s (bytes ++ rest) ≡ some v
  -- `key.toBuffer()`: the key's 32 bytes.
  pub to_buffer : Pubkey → List ℕ
  pub to_buffer_lem : (k : Pubkey) → IsKey k → to_buffer k ≡ little_endian 32 k

-- `TransactionInstruction` of @solana/web3.js; its field `data` is `bytes` here.
pub record TransactionInstruction : Type 0 where
  pub keys : List AccountMeta
  pub program_id : Pubkey
  pub bytes : List ℕ

-- `Keypair` of @solana/web3.js; its secret is not used.
pub record Keypair : Type 0 where
  pub public_key : Pubkey
