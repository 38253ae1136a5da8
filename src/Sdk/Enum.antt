-- ===== src/Sdk/Enum.antt =====
-- The documented encoding of an enum: the index of the variant in a byte, then its fields. An
-- enum is built here variant by variant, as a sum.
use native.Mathlib.Nat.{le_refl}
use multisig_native.Base.{
  ℕ, suc, ◌≤◌, ◌<◌, ◌≡◌, refl, ◌⊎◌, inl, inr, List, [], ◌++◌, append_assoc, Option, none, some,
  length, length-append, ◌+◌, ◌==◌, ==_refl, ==_ne, if◌then◌else◌, Option-cases, arith, ◌^◌,
}
use multisig_native.Sdk.Codec.{Encoding}

-- A variant with no field.
pub unit_read-write :
    (a : Unit {0}) (rest : List ℕ)
    → Unit {0}
    → ◌≡◌ {A = Option (Unit {0} × List ℕ)} (some (tt, [] ++ rest)) (some (a, rest))
unit_read-write a rest h = refl

pub unit_read_sound :
    (bytes : List ℕ) (a : Unit {0}) (rest : List ℕ)
    → ◌≡◌ {A = Option (Unit {0} × List ℕ)} (some (tt, bytes)) (some (a, rest))
    → (bytes ≡ [] ++ rest) × Unit {0}
unit_read_sound bytes a rest h = (cc, tt)

abbrev pub no_fields : Encoding {A = Unit {0}} (λ _. Unit {0}) (λ _. 0)
no_fields = record {
  write = λ _. [];
  read = λ bytes. some (tt, bytes);
  read-write = unit_read-write;
  read_sound = unit_read_sound;
  length-write = λ _. refl;
}

-- Variants with the indices from `least` on, and the encoding of their fields.
pub record Variants {A : Type 0} (Fits : A → Type 0) (size : A → ℕ) (least : ℕ) : Type 0 where
  pub index : A → ℕ
  pub index_least : (a : A) → least ≤ index a
  pub index_fits : (a : A) → index a < 2 ^ 8
  pub write : A → List ℕ
  pub read : ℕ → List ℕ → Option (A × List ℕ)
  pub read-write :
      (a : A) (rest : List ℕ) → Fits a → read (index a) (write a ++ rest) ≡ some (a, rest)
  pub read_sound :
      (i : ℕ) (bytes : List ℕ) (a : A) (rest : List ℕ)
      → read i bytes ≡ some (a, rest)
      → (i ≡ index a) × (bytes ≡ write a ++ rest) × Fits a
  pub length-write : (a : A) → length (write a) ≡ size a

-- The last variant.
module _ {A : Type 0} {F : A → Type 0} {f : A → ℕ} (k : ℕ) (small : k < 2 ^ 8)
    (c : Encoding F f) where
  abbrev last_read : ℕ → List ℕ → Option (A × List ℕ)
  last_read i bytes = if i == k then c.read bytes else none

  pub last_read-write :
      (a : A) (rest : List ℕ) → F a → last_read k (c.write a ++ rest) ≡ some (a, rest)
  last_read-write a rest h = rw (==_refl k) (c.read-write a rest h)

  pub last_read_sound :
      (i : ℕ) (bytes : List ℕ) (a : A) (rest : List ℕ)
      → last_read i bytes ≡ some (a, rest)
      → (i ≡ k) × (bytes ≡ c.write a ++ rest) × F a
  last_read_sound i bytes a rest h =
      let whole : c.read bytes ≡ some (a, rest) = ground arith in
      let (e, fits) = c.read_sound bytes a rest whole in (ground arith, e, fits)

  abbrev pub last : Variants F f k
  last = record {
    index = λ _. k;
    index_least = λ _. le_refl k;
    index_fits = λ _. small;
    write = c.write;
    read = last_read;
    read-write = last_read-write;
    read_sound = last_read_sound;
    length-write = c.length-write;
  }

-- A variant before others.
module _ {A B : Type 0} {F : A → Type 0} {f : A → ℕ} {G : B → Type 0} {g : B → ℕ} (k : ℕ)
    (small : k < 2 ^ 8) (c : Encoding F f) (d : Variants G g (suc k)) where
  abbrev EitherFits : A ⊎ B → Type 0
  EitherFits (inl a) = F a
  EitherFits (inr b) = G b

  abbrev either_size : A ⊎ B → ℕ
  either_size (inl a) = f a
  either_size (inr b) = g b

  abbrev first_index : A ⊎ B → ℕ
  first_index (inl a) = k
  first_index (inr b) = d.index b

  abbrev first_write : A ⊎ B → List ℕ
  first_write (inl a) = c.write a
  first_write (inr b) = d.write b

  abbrev left : Option (A × List ℕ) → Option ((A ⊎ B) × List ℕ)
  left none = none
  left (some (a, rest)) = some (inl a, rest)

  abbrev right : Option (B × List ℕ) → Option ((A ⊎ B) × List ℕ)
  right none = none
  right (some (b, rest)) = some (inr b, rest)

  abbrev first_read : ℕ → List ℕ → Option ((A ⊎ B) × List ℕ)
  first_read i bytes = if i == k then left (c.read bytes) else right (d.read i bytes)

  pub first_index_least : (v : A ⊎ B) → k ≤ first_index v
  first_index_least (inl a) = omega arith
  first_index_least (inr b) = omega (arith, d.index_least b)

  pub first_index_fits : (v : A ⊎ B) → first_index v < 2 ^ 8
  first_index_fits (inl a) = small
  first_index_fits (inr b) = d.index_fits b

  pub first_read-write :
      (v : A ⊎ B) (rest : List ℕ)
      → EitherFits v
      → first_read (first_index v) (first_write v ++ rest) ≡ some (v, rest)
  first_read-write (inl a) rest h = rw (==_refl k, c.read-write a rest h)
  first_read-write (inr b) rest h =
      rw (==_ne (d.index b) k (λ e. omega (arith, d.index_least b)), d.read-write b rest h)

  pub first_read_sound :
      (i : ℕ) (bytes : List ℕ) (v : A ⊎ B) (rest : List ℕ)
      → first_read i bytes ≡ some (v, rest)
      → (i ≡ first_index v) × (bytes ≡ first_write v ++ rest) × EitherFits v
  first_read_sound i bytes (inl a) rest h =
      let whole : c.read bytes ≡ some (a, rest) = ground arith in
      let (e, fits) = c.read_sound bytes a rest whole in (ground arith, e, fits)
  first_read_sound i bytes (inr b) rest h =
      let whole : d.read i bytes ≡ some (b, rest) = ground arith in
      d.read_sound i bytes b rest whole

  pub length-first_write : (v : A ⊎ B) → length (first_write v) ≡ either_size v
  length-first_write (inl a) = c.length-write a
  length-first_write (inr b) = d.length-write b

  abbrev pub first : Variants EitherFits either_size k
  first = record {
    index = first_index;
    index_least = first_index_least;
    index_fits = first_index_fits;
    write = first_write;
    read = first_read;
    read-write = first_read-write;
    read_sound = first_read_sound;
    length-write = length-first_write;
  }

-- The whole enum.
module _ {A : Type 0} {F : A → Type 0} {f : A → ℕ} {least : ℕ}
    (u8 : Encoding {A = ℕ} (λ n. n < 2 ^ 8) (λ _. 1)) (v : Variants F f least) where
  abbrev enum_write : A → List ℕ
  enum_write a = u8.write (v.index a) ++ v.write a

  abbrev enum_fields : Option (ℕ × List ℕ) → Option (A × List ℕ)
  enum_fields none = none
  enum_fields (some (i, rest)) = v.read i rest

  abbrev enum_read : List ℕ → Option (A × List ℕ)
  enum_read bytes = enum_fields (u8.read bytes)

  pub enum_read-write :
      (a : A) (rest : List ℕ) → F a → enum_read (enum_write a ++ rest) ≡ some (a, rest)
  enum_read-write a rest h = rw (
    append_assoc (u8.write (v.index a)) (v.write a) rest,
    u8.read-write (v.index a) (v.write a ++ rest) (v.index_fits a),
    v.read-write a rest h,
  )

  pub enum_read_sound :
      (bytes : List ℕ) (a : A) (rest : List ℕ)
      → enum_read bytes ≡ some (a, rest)
      → (bytes ≡ enum_write a ++ rest) × F a
  enum_read_sound bytes a rest h = elim (Option-cases (u8.read bytes)) [
    | inl e ↦ ground arith
    | inr ((i, mid), e) ↦
        let fields : v.read i mid ≡ some (a, rest) = ground arith in
        let (which, split, fits) = v.read_sound i mid a rest fields in
        let (head, _) = u8.read_sound bytes i mid e in
        (cc (append_assoc (u8.write i) (v.write a) rest), fits)
  ]

  pub length-enum_write : (a : A) → length (enum_write a) ≡ 1 + f a
  length-enum_write a = omega (
    arith,
    length-append (u8.write (v.index a)) (v.write a),
    u8.length-write (v.index a),
    v.length-write a,
  )

  abbrev pub enum : Encoding F (λ a. 1 + f a)
  enum = record {
    write = enum_write;
    read = enum_read;
    read-write = enum_read-write;
    read_sound = enum_read_sound;
    length-write = length-enum_write;
  }
