-- ===== src/Sdk/Codec.antt =====
-- The encoding of a type in bytes, with what the documentation of borsh says of it: reading
-- takes what was written off the front, an encoding is canonical, and its size is known.
use multisig_native.Base.{
  ℕ, ◌+◌, ◌≡◌, ◌∙◌, List, ◌++◌, append_assoc, Option, none, some, length, length-append,
  Option-cases, inl, inr, arith,
}

-- `Fits` says which values the type has: a number below its width, a list of countable length.
pub record Encoding {A : Type 0} (Fits : A → Type 0) (size : A → ℕ) : Type 0 where
  pub write : A → List ℕ
  pub read : List ℕ → Option (A × List ℕ)
  pub read-write : (a : A) (rest : List ℕ) → Fits a → read (write a ++ rest) ≡ some (a, rest)
  pub read_sound :
      (bytes : List ℕ) (a : A) (rest : List ℕ)
      → read bytes ≡ some (a, rest)
      → (bytes ≡ write a ++ rest) × Fits a
  pub length-write : (a : A) → length (write a) ≡ size a

-- Two fields in a row.
module _ {A B : Type 0} {F : A → Type 0} {f : A → ℕ} {G : B → Type 0} {g : B → ℕ} (c : Encoding F f)
    (d : Encoding G g) where
  abbrev both_write : A × B → List ℕ
  both_write (a, b) = c.write a ++ d.write b

  abbrev both_second : A → Option (B × List ℕ) → Option ((A × B) × List ℕ)
  both_second a none = none
  both_second a (some (b, rest)) = some ((a, b), rest)

  abbrev both_first : Option (A × List ℕ) → Option ((A × B) × List ℕ)
  both_first none = none
  both_first (some (a, rest)) = both_second a (d.read rest)

  abbrev both_read : List ℕ → Option ((A × B) × List ℕ)
  both_read bytes = both_first (c.read bytes)

  pub both_read-write :
      (p : A × B) (rest : List ℕ)
      → F p.0 × G p.1
      → both_read (both_write p ++ rest) ≡ some (p, rest)
  both_read-write (a, b) rest h = rw (
    append_assoc (c.write a) (d.write b) rest,
    c.read-write a (d.write b ++ rest) h.0,
    d.read-write b rest h.1,
  )

  both_read_parts :
      (bytes : List ℕ) (a : A) (b : B) (rest : List ℕ)
      → both_read bytes ≡ some ((a, b), rest)
      → (mid : List ℕ) × (c.read bytes ≡ some (a, mid)) × (d.read mid ≡ some (b, rest))
  both_read_parts bytes a b rest h = elim (Option-cases (c.read bytes)) [
    | inl e ↦ ground arith
    | inr ((a', mid), e) ↦ elim (Option-cases (d.read mid)) [
      | inl e' ↦ ground arith
      | inr (_, e') ↦ (mid, ground arith, ground arith)
    ]
  ]

  pub both_read_sound :
      (bytes : List ℕ) (p : A × B) (rest : List ℕ)
      → both_read bytes ≡ some (p, rest)
      → (bytes ≡ both_write p ++ rest) × (F p.0 × G p.1)
  both_read_sound bytes (a, b) rest h =
      let (mid, first, second) = both_read_parts bytes a b rest h in
      let (split, fits) = c.read_sound bytes a mid first in
      let (split', fits') = d.read_sound mid b rest second in
      (cc (append_assoc (c.write a) (d.write b) rest), (fits, fits'))

  pub length-both_write : (p : A × B) → length (both_write p) ≡ f p.0 + g p.1
  length-both_write (a, b) =
      omega (arith, length-append (c.write a) (d.write b), c.length-write a, d.length-write b)

  abbrev pub both : Encoding {A = A × B} (λ p. F p.0 × G p.1) (λ p. f p.0 + g p.1)
  both = record {
    write = both_write;
    read = both_read;
    read-write = both_read-write;
    read_sound = both_read_sound;
    length-write = length-both_write;
  }

-- A struct is encoded as the tuple of its fields, in their order.
module _ {A B : Type 0} {F : A → Type 0} {f : A → ℕ} (to : A → B) (from : B → A)
    (to-from : (b : B) → to (from b) ≡ b) (from-to : (a : A) → from (to a) ≡ a)
    (c : Encoding F f) where
  abbrev struct_result : Option (A × List ℕ) → Option (B × List ℕ)
  struct_result none = none
  struct_result (some (a, rest)) = some (to a, rest)

  abbrev struct_write : B → List ℕ
  struct_write b = c.write (from b)

  abbrev struct_read : List ℕ → Option (B × List ℕ)
  struct_read bytes = struct_result (c.read bytes)

  pub struct_read-write :
      (b : B) (rest : List ℕ) → F (from b) → struct_read (struct_write b ++ rest) ≡ some (b, rest)
  struct_read-write b rest h = rw (c.read-write (from b) rest h, to-from b)

  pub struct_read_sound :
      (bytes : List ℕ) (b : B) (rest : List ℕ)
      → struct_read bytes ≡ some (b, rest)
      → (bytes ≡ struct_write b ++ rest) × F (from b)
  struct_read_sound bytes b rest h = elim (Option-cases (c.read bytes)) [
    | inl e ↦ ground arith
    | inr ((a, rest'), e) ↦
        let exact : c.read bytes ≡ some (from b, rest) = ground (arith, from-to a) in
        c.read_sound bytes (from b) rest exact
  ]

  pub length-struct_write : (b : B) → length (struct_write b) ≡ f (from b)
  length-struct_write b = c.length-write (from b)

  abbrev pub struct : Encoding {A = B} (λ b. F (from b)) (λ b. f (from b))
  struct = record {
    write = struct_write;
    read = struct_read;
    read-write = struct_read-write;
    read_sound = struct_read_sound;
    length-write = length-struct_write;
  }

-- The same encoding, with its values and its size described in other words.
module _ {A : Type 0} {F : A → Type 0} {f : A → ℕ} {G : A → Type 0} {g : A → ℕ}
    (to : (a : A) → F a → G a) (from : (a : A) → G a → F a) (size : (a : A) → f a ≡ g a)
    (c : Encoding F f) where
  pub restate_sound :
      (bytes : List ℕ) (a : A) (rest : List ℕ)
      → c.read bytes ≡ some (a, rest)
      → (bytes ≡ c.write a ++ rest) × G a
  restate_sound bytes a rest h = let (e, fits) = c.read_sound bytes a rest h in (e, to a fits)

  pub length-restate_write : (a : A) → length (c.write a) ≡ g a
  length-restate_write a = c.length-write a ∙ size a

  abbrev pub restate : Encoding G g
  restate = record {
    write = c.write;
    read = c.read;
    read-write = λ a rest h. c.read-write a rest (from a h);
    read_sound = restate_sound;
    length-write = length-restate_write;
  }
