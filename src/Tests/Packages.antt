-- ===== src/Tests/Packages.antt =====
-- The packages borsh and @solana/web3.js by their documentation, to run the client with.
mod Writes
mod Reads
unfoldable pub use Writes.{serialize, serialize_all}
use Prim.Native.String.{String}
use text.Mathlib.Text.{◌==◌ as str_eq}
use text.Mathlib.TextEquality.{eq_iff}
use text.Mathlib.TextPositions.{eq_refl}
use multisig_native.Base.{
  ℕ, zero, suc, ◌≡◌, refl, Bool, true, false, List, [], ◌∷◌, ◌++◌, append_assoc, Option, none, some,
  if◌then◌else◌, ◌==◌, ==_refl, Bool-cases, inl, inr, arith,
}
use multisig_native.Sdk.{little_endian}
use multisig_native.Client.Js.{
  Value, number, boolean, array, object, Values, nil, cons, count, Properties, end, property,
  lookup,
}
use multisig_native.Client.Packages.{
  Schema, u8, u32, bool, fixed_array, dynamic_array, struct, Fields, fields_end, field, after,
  serialize_items, serialize_property, serialize_fields, Conforms, AllConform, FieldsConform,
  Packages,
}
use multisig_native.Tests.LittleEndian.{read_uint, read_bool, read_uint-little_endian}
use multisig_native.Tests.Packages.Reads.{read, without_rest, reads_back}

serialize_all_lem :
    (fs : Fields) (ps : Properties) → serialize_all fs ps ≡ serialize_fields serialize fs ps
unfolding serialize_all
serialize_all_lem fields_end ps = refl
serialize_all_lem (field name s fs) ps = rw (serialize_all_lem fs ps)

pub serialize_u8 : (n : ℕ) → serialize u8 (number n) ≡ some (little_endian 1 n)
unfolding serialize
serialize_u8 n = refl

pub serialize_u32 : (n : ℕ) → serialize u32 (number n) ≡ some (little_endian 4 n)
unfolding serialize
serialize_u32 n = refl

pub serialize_bool : (v : Bool) → serialize bool (boolean v) ≡ some ((if v then 1 else 0) ∷ [])
unfolding serialize
serialize_bool v = refl

pub serialize_fixed :
    (s : Schema) (vs : Values)
    → serialize (fixed_array s (count vs)) (array vs) ≡ serialize_items (serialize s) vs
unfolding serialize
serialize_fixed s vs = rw (==_refl (count vs)) refl

pub serialize_array :
    (s : Schema) (vs : Values)
    → serialize (dynamic_array s) (array vs)
      ≡ after (some (little_endian 4 (count vs))) (serialize_items (serialize s) vs)
unfolding serialize
serialize_array s vs = refl

pub serialize_struct :
    (fs : Fields) (ps : Properties)
    → serialize (struct fs) (object ps) ≡ serialize_fields serialize fs ps
unfolding serialize
serialize_struct fs ps = serialize_all_lem fs ps

abbrev pub deserialize : Schema → List ℕ → Option Value
deserialize s bytes = without_rest (read s bytes)

pub deserialize-serialize :
    (s : Schema) (v : Value) (bytes rest : List ℕ)
    → Conforms s v
    → serialize s v ≡ some bytes
    → deserialize s (bytes ++ rest) ≡ some v
deserialize-serialize s v bytes rest c h = rw (reads_back s v bytes rest c h) refl

abbrev pub packages : Packages
packages = record {
  serialize = serialize;
  serialize_u8 = λ n h. serialize_u8 n;
  serialize_u32 = λ n h. serialize_u32 n;
  serialize_bool = serialize_bool;
  serialize_fixed = serialize_fixed;
  serialize_array = λ s vs h. serialize_array s vs;
  serialize_struct = serialize_struct;
  deserialize = deserialize;
  deserialize-serialize = deserialize-serialize;
  to_buffer = little_endian 32;
  to_buffer_lem = λ k h. refl;
}
