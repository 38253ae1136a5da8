-- ===== src/Tests/LittleEndian.antt =====
-- Numbers in little endian, byte by byte, and truth values in a byte.
use native.Mathlib.Nat.{pow-suc}
use multisig_native.Base.{
  ℕ, zero, suc, ◌+◌, ◌*◌, ◌/◌, ◌%◌, ◌^◌, ◌<◌, ◌≡◌, refl, Bool, true, false, List, [], ◌∷◌, ◌++◌,
  Option, none, some, length, ltb, ◌==◌, if◌then◌else◌, Option-cases, inl, inr, arith,
}
use multisig_native.Sdk.Bytes.{length-little_endian}
use multisig_native.Sdk.{Encoding, little_endian}

abbrev pub shifted : ℕ → Option (ℕ × List ℕ) → Option (ℕ × List ℕ)
shifted b none = none
shifted b (some (n, rest)) = if ltb b 256 then some (b + 256 * n, rest) else none

unfoldable pub read_uint : ℕ → List ℕ → Option (ℕ × List ℕ)
read_uint zero bytes = some (0, bytes)
read_uint (suc k) [] = none
read_uint (suc k) (b ∷ bytes) = shifted b (read_uint k bytes)

pub read_uint-little_endian :
    (k n : ℕ) (rest : List ℕ)
    → n < 256 ^ k
    → read_uint k (little_endian k n ++ rest) ≡ some (n, rest)
unfolding little_endian read_uint
read_uint-little_endian zero n rest h = ground arith
read_uint-little_endian (suc k) n rest h =
    let p : n < 256 ^ k * 256 = rw (← pow-suc 256 k) h in
    ground (arith, read_uint-little_endian k (n / 256) rest (omega arith))

pub read_uint_sound :
    (k : ℕ) (bytes : List ℕ) (n : ℕ) (rest : List ℕ)
    → read_uint k bytes ≡ some (n, rest)
    → (bytes ≡ little_endian k n ++ rest) × (n < 256 ^ k)
unfolding little_endian read_uint
read_uint_sound zero bytes n rest h = (cc, ground arith)
read_uint_sound (suc k) [] n rest h = cc
read_uint_sound (suc k) (b ∷ bytes) n rest h = elim (Option-cases (read_uint k bytes)) [
  | inl e ↦ ground arith
  | inr ((m, mid), e) ↦
      let small : b < 256 = ground arith in
      let value : n ≡ b + 256 * m = ground arith in
      let same : mid ≡ rest = ground arith in
      let (split, bound) = read_uint_sound k bytes m mid e in
      let low : n % 256 ≡ b = omega arith in
      let high : n / 256 ≡ m = omega arith in
      (rw (low, high, split, same), rw (pow-suc 256 k) (omega arith))
]

-- A number of `k` bytes.
abbrev pub uint : (k : ℕ) → Encoding {A = ℕ} (λ n. n < 256 ^ k) (λ _. k)
uint k = record {
  write = little_endian k;
  read = read_uint k;
  read-write = read_uint-little_endian k;
  read_sound = read_uint_sound k;
  length-write = length-little_endian k;
}

abbrev pub write_bool : Bool → List ℕ
write_bool false = 0 ∷ []
write_bool true = 1 ∷ []

abbrev pub read_bool : List ℕ → Option (Bool × List ℕ)
read_bool [] = none
read_bool (b ∷ bytes) =
    if b == 0 then some (false, bytes) else if b == 1 then some (true, bytes) else none

pub read_bool-write_bool :
    (v : Bool) (rest : List ℕ) → Unit {0} → read_bool (write_bool v ++ rest) ≡ some (v, rest)
read_bool-write_bool true rest h = refl
read_bool-write_bool false rest h = refl

pub read_bool_sound :
    (bytes : List ℕ) (v : Bool) (rest : List ℕ)
    → read_bool bytes ≡ some (v, rest)
    → (bytes ≡ write_bool v ++ rest) × Unit {0}
read_bool_sound [] v rest h = cc
read_bool_sound (b ∷ bytes) true rest h = (ground arith, tt)
read_bool_sound (b ∷ bytes) false rest h = (ground arith, tt)

pub length-write_bool : (v : Bool) → length (write_bool v) ≡ 1
length-write_bool true = refl
length-write_bool false = refl

abbrev pub bool : Encoding {A = Bool} (λ _. Unit {0}) (λ _. 1)
bool = record {
  write = write_bool;
  read = read_bool;
  read-write = read_bool-write_bool;
  read_sound = read_bool_sound;
  length-write = length-write_bool;
}
