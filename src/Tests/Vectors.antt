-- ===== src/Tests/Vectors.antt =====
-- Vectors: their length and their items, one after the other.
use multisig_native.Base.{
  ℕ, zero, suc, ◌+◌, ◌≡◌, refl, List, [], ◌∷◌, ◌++◌, append_assoc, Option, none, some, length,
  length-append, sum_of, All, Option-cases, inl, inr, arith, ap,
}
use multisig_native.Sdk.{Encoding, IsVec}
use multisig_native.Tests.LittleEndian.{uint}

module _ {A : Type 0} {F : A → Type 0} {f : A → ℕ} (c : Encoding F f) where
  unfoldable pub write_items : List A → List ℕ
  write_items [] = []
  write_items (x ∷ xs) = c.write x ++ write_items xs

  abbrev pub prepend : A → Option (List A × List ℕ) → Option (List A × List ℕ)
  prepend x none = none
  prepend x (some (xs, rest)) = some (x ∷ xs, rest)

  abbrev pub then_item :
      (List ℕ → Option (List A × List ℕ)) → Option (A × List ℕ) → Option (List A × List ℕ)
  then_item next none = none
  then_item next (some (x, rest)) = prepend x (next rest)

  unfoldable pub read_items : ℕ → List ℕ → Option (List A × List ℕ)
  read_items zero bytes = some ([], bytes)
  read_items (suc n) bytes = then_item (read_items n) (c.read bytes)

  read_items-write_items :
      (xs : List A) (rest : List ℕ)
      → All F xs
      → read_items (length xs) (write_items xs ++ rest) ≡ some (xs, rest)
  unfolding read_items write_items
  read_items-write_items [] rest h = refl
  read_items-write_items (x ∷ xs) rest h = rw (
    append_assoc (c.write x) (write_items xs) rest,
    c.read-write x (write_items xs ++ rest) h.0,
    read_items-write_items xs rest h.1,
  )

  read_items_sound :
      (n : ℕ) (bytes : List ℕ) (xs : List A) (rest : List ℕ)
      → read_items n bytes ≡ some (xs, rest)
      → (n ≡ length xs) × (bytes ≡ write_items xs ++ rest) × All F xs
  unfolding read_items write_items
  read_items_sound zero bytes [] rest h = (refl, cc, tt)
  read_items_sound zero bytes (x ∷ xs) rest h = cc
  read_items_sound (suc n) bytes [] rest h = elim (Option-cases (c.read bytes)) [
    | inl e ↦ ground arith
    | inr ((x, mid), e) ↦ elim (Option-cases (read_items n mid)) [
      | inl e' ↦ ground arith
      | inr (_, e') ↦ ground arith
    ]
  ]
  read_items_sound (suc n) bytes (y ∷ ys) rest h = elim (Option-cases (c.read bytes)) [
    | inl e ↦ ground arith
    | inr ((x, mid), e) ↦ elim (Option-cases (read_items n mid)) [
      | inl e' ↦ ground arith
      | inr (_, e') ↦
          let first : c.read bytes ≡ some (y, mid) = ground arith in
          let others : read_items n mid ≡ some (ys, rest) = ground arith in
          let (split, fits) = c.read_sound bytes y mid first in
          let (count, split', fits') = read_items_sound n mid ys rest others in
          (ap suc count, cc (append_assoc (c.write y) (write_items ys) rest), (fits, fits'))
    ]
  ]

  length-write_items : (xs : List A) → length (write_items xs) ≡ sum_of f xs
  unfolding write_items
  length-write_items [] = refl
  length-write_items (x ∷ xs) =
      omega
        (arith, length-append (c.write x) (write_items xs), c.length-write x, length-write_items xs)

  abbrev pub vec_write : List A → List ℕ
  vec_write xs = (uint 4).write (length xs) ++ write_items xs

  abbrev pub vec_items : Option (ℕ × List ℕ) → Option (List A × List ℕ)
  vec_items none = none
  vec_items (some (n, rest)) = read_items n rest

  abbrev pub vec_read : List ℕ → Option (List A × List ℕ)
  vec_read bytes = vec_items ((uint 4).read bytes)

  pub vec_read-write :
      (xs : List A) (rest : List ℕ) → IsVec F xs → vec_read (vec_write xs ++ rest) ≡ some (xs, rest)
  vec_read-write xs rest h = rw (
    append_assoc ((uint 4).write (length xs)) (write_items xs) rest,
    (uint 4).read-write (length xs) (write_items xs ++ rest) h.0,
    read_items-write_items xs rest h.1,
  )

  pub vec_read_sound :
      (bytes : List ℕ) (xs : List A) (rest : List ℕ)
      → vec_read bytes ≡ some (xs, rest)
      → (bytes ≡ vec_write xs ++ rest) × IsVec F xs
  vec_read_sound bytes xs rest h = elim (Option-cases ((uint 4).read bytes)) [
    | inl e ↦ ground arith
    | inr ((n, mid), e) ↦
        let items : read_items n mid ≡ some (xs, rest) = ground arith in
        let (count, split, fits) = read_items_sound n mid xs rest items in
        let (head, small) = (uint 4).read_sound bytes n mid e in
        (cc (append_assoc ((uint 4).write (length xs)) (write_items xs) rest), (omega arith, fits))
  ]

  pub length-vec_write : (xs : List A) → length (vec_write xs) ≡ 4 + sum_of f xs
  length-vec_write xs = omega (
    arith,
    length-append ((uint 4).write (length xs)) (write_items xs),
    (uint 4).length-write (length xs),
    length-write_items xs,
  )

  abbrev pub vec : Encoding (IsVec F) (λ xs. 4 + sum_of f xs)
  vec = record {
    write = vec_write;
    read = vec_read;
    read-write = vec_read-write;
    read_sound = vec_read_sound;
    length-write = length-vec_write;
  }
