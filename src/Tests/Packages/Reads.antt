-- ===== src/Tests/Packages/Reads.antt =====
-- Reading a value by its schema takes back what was written.
use Prim.Native.String.{String}
use text.Mathlib.Text.{◌==◌ as str_eq}
use text.Mathlib.TextEquality.{eq_iff}
use text.Mathlib.TextPositions.{eq_refl}
use multisig_native.Base.{
  ℕ, zero, suc, ◌≡◌, refl, Bool, true, false, List, ◌∷◌, ◌++◌, append_assoc, Option, none, some,
  if◌then◌else◌, Bool-cases, inl, inr, arith,
}
use multisig_native.Sdk.{little_endian}
use multisig_native.Client.Js.{
  Value, number, boolean, array, object, Values, nil, cons, count, Properties, end, property,
  lookup,
}
use multisig_native.Client.Packages.{
  Schema, u8, u32, bool, fixed_array, dynamic_array, struct, Fields, fields_end, field, after,
  serialize_items, Conforms, AllConform, FieldsConform,
}
use multisig_native.Tests.LittleEndian.{read_uint, read_bool, read_uint-little_endian}
use multisig_native.Tests.Packages.Writes.{serialize, serialize_all}

abbrev pub Read : Type 0 → Type 0
Read A = Option (A × List ℕ)

abbrev pub with_value : {A : Type 0} → (A → Value) → Read A → Read Value
with_value f none = none
with_value f (some (a, rest)) = some (f a, rest)

abbrev pub prepend : Value → Read Values → Read Values
prepend v none = none
prepend v (some (vs, rest)) = some (cons v vs, rest)

abbrev pub then_values : Read Value → (List ℕ → Read Values) → Read Values
then_values none next = none
then_values (some (v, rest)) next = prepend v (next rest)

abbrev pub read_values : (List ℕ → Read Value) → ℕ → List ℕ → Read Values
read_values f zero bytes = some (nil, bytes)
read_values f (suc n) bytes = then_values (f bytes) (read_values f n)

abbrev pub counted : (List ℕ → Read Value) → Read ℕ → Read Values
counted f none = none
counted f (some (n, rest)) = read_values f n rest

abbrev pub name_value : String → Value → Read Properties → Read Properties
name_value k v none = none
name_value k v (some (ps, rest)) = some (property k v ps, rest)

abbrev pub then_properties : String → Read Value → (List ℕ → Read Properties) → Read Properties
then_properties k none next = none
then_properties k (some (v, rest)) next = name_value k v (next rest)

unfoldable mutual
  pub read : Schema → List ℕ → Read Value
  read u8 bytes = with_value number (read_uint 1 bytes)
  read u32 bytes = with_value number (read_uint 4 bytes)
  read bool bytes = with_value boolean (read_bool bytes)
  read (fixed_array s n) bytes = with_value array (read_values (read s) n bytes)
  read (dynamic_array s) bytes = with_value array (counted (read s) (read_uint 4 bytes))
  read (struct fs) bytes = with_value object (read_properties fs bytes)

  pub read_properties : Fields → List ℕ → Read Properties
  read_properties fields_end bytes = some (end, bytes)
  read_properties (field name s fs) bytes = then_properties name (read s bytes) (read_properties fs)

abbrev pub without_rest : Read Value → Option Value
without_rest none = none
without_rest (some (v, rest)) = some v

some_injective : {a b : List ℕ} → some a ≡ some b → a ≡ b
some_injective h = cc

after-some :
    (x y : Option (List ℕ)) (bytes : List ℕ)
    → after x y ≡ some bytes
    → (before : List ℕ) × (behind : List ℕ) × (x ≡ some before)
      × (y ≡ some behind)
      × (bytes ≡ before ++ behind)
after-some none y bytes h = cc
after-some (some a) none bytes h = cc
after-some (some a) (some b) bytes h = (a, b, refl, refl, cc)

-- The reading of a schema takes back what was written of a value.
abbrev pub ReadsBack : Schema → Type 0
ReadsBack s =
    (v : Value) (bytes rest : List ℕ)
    → Conforms s v
    → serialize s v ≡ some bytes
    → read s (bytes ++ rest) ≡ some (v, rest)

read_values_lem :
    (s : Schema) (vs : Values) (bytes rest : List ℕ)
    → ReadsBack s
    → AllConform s vs
    → serialize_items (serialize s) vs ≡ some bytes
    → read_values (read s) (count vs) (bytes ++ rest) ≡ some (vs, rest)
unfolding AllConform
read_values_lem s nil bytes rest back c h = ground arith
read_values_lem s (cons v vs) bytes rest back (c, cs) h =
    let (first, others, e, e', split) = after-some _ _ bytes h in
    rw (
      split,
      append_assoc first others rest,
      back v first (others ++ rest) c e,
      read_values_lem s vs others rest back cs e',
    )

lookup_self : (k : String) (v : Value) (ps : Properties) → lookup k (property k v ps) ≡ some v
lookup_self k v ps = rw (eq_refl k)

lookup_later :
    (k name : String) (v w : Value) (ps : Properties)
    → lookup k ps ≡ none
    → lookup name ps ≡ some w
    → lookup name (property k v ps) ≡ some w
lookup_later k name v w ps free found = elim (Bool-cases (str_eq k name)) [
  | inl e ↦
      let same = (eq_iff k name).0 e in
      let none_there : lookup name ps ≡ none = rw (← same) free in cc
  | inr e ↦ rw e found
]

read_bool_lem :
    (v : Bool) (rest : List ℕ) → read_bool ((if v then 1 else 0) ∷ rest) ≡ some (v, rest)
read_bool_lem true rest = refl
read_bool_lem false rest = refl

mutual
  unfolding serialize serialize_all read read_properties Conforms FieldsConform

  pub reads_back : (s : Schema) → ReadsBack s
  reads_back u8 (number n) bytes rest c h =
      rw (← some_injective h, read_uint-little_endian 1 n rest (omega arith)) refl
  reads_back u32 (number n) bytes rest c h =
      rw (← some_injective h, read_uint-little_endian 4 n rest (omega arith)) refl
  reads_back bool (boolean v) bytes rest c h = rw (← some_injective h, read_bool_lem v rest) refl
  reads_back (fixed_array s n) (array vs) bytes rest c h =
      let items : serialize_items (serialize s) vs ≡ some bytes = ground arith in
      rw (← c.0, read_values_lem s vs bytes rest (reads_back s) c.1 items) refl
  reads_back (dynamic_array s) (array vs) bytes rest c h =
      let (first, others, e, e', split) = after-some _ _ bytes h in
      rw
        (
          split,
          ← some_injective e,
          append_assoc (little_endian 4 (count vs)) others rest,
          read_uint-little_endian 4 (count vs) (others ++ rest) (omega arith),
          read_values_lem s vs others rest (reads_back s) c.1 e',
        )
        refl
  reads_back (struct fs) (object ps) bytes rest c h =
      rw (reads_back_all fs ps ps bytes rest c (λ name w found. found) h) refl
  reads_back _ _ bytes rest c h = absurd c

  reads_back_all :
      (fs : Fields) (ps all : Properties) (bytes rest : List ℕ)
      → FieldsConform fs ps
      → ((name : String) (w : Value) → lookup name ps ≡ some w → lookup name all ≡ some w)
      → serialize_all fs all ≡ some bytes
      → read_properties fs (bytes ++ rest) ≡ some (ps, rest)
  reads_back_all fields_end end all bytes rest c there h = ground arith
  reads_back_all (field name s fs) (property k v ps) all bytes rest (same, free, c, cs) there h =
      let (first, others, e, e', split) = after-some _ _ bytes h in
      let found : lookup name all ≡ some v = there name v (rw same (lookup_self name v ps)) in
      let written : serialize s v ≡ some first = rw found at e in
      rw
        (
          split,
          append_assoc first others rest,
          reads_back s v first (others ++ rest) c written,
          reads_back_all fs ps all others rest cs
              (λ name w f. there name w (lookup_later k name v w ps free f)) e',
          same,
        )
        refl
  reads_back_all _ _ all bytes rest c there h = absurd c
