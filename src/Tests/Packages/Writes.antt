-- ===== src/Tests/Packages/Writes.antt =====
-- The encoding of a value by its schema.
use multisig_native.Base.{ℕ, List, [], ◌∷◌, Option, none, some, if◌then◌else◌, ◌==◌}
use multisig_native.Sdk.{little_endian}
use multisig_native.Client.Js.{Value, number, boolean, array, object, count, Properties, lookup}
use multisig_native.Client.Packages.{
  Schema, u8, u32, bool, fixed_array, dynamic_array, struct, Fields, fields_end, field, after,
  serialize_items, serialize_property,
}

unfoldable mutual
  pub serialize : Schema → Value → Option (List ℕ)
  serialize u8 (number n) = some (little_endian 1 n)
  serialize u32 (number n) = some (little_endian 4 n)
  serialize bool (boolean v) = some ((if v then 1 else 0) ∷ [])
  serialize (fixed_array s n) (array vs) =
      if count vs == n then serialize_items (serialize s) vs else none
  serialize (dynamic_array s) (array vs) =
      after (some (little_endian 4 (count vs))) (serialize_items (serialize s) vs)
  serialize (struct fs) (object ps) = serialize_all fs ps
  serialize _ _ = none

  pub serialize_all : Fields → Properties → Option (List ℕ)
  serialize_all fields_end ps = some []
  serialize_all (field name s fs) ps =
      after (serialize_property (serialize s) (lookup name ps)) (serialize_all fs ps)
