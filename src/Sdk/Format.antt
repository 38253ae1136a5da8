-- ===== src/Sdk/Format.antt =====
-- What the program uses of crate borsh, with its documented format: integers in little endian
-- at their width, a truth value as a byte, a `Vec` as its `u32` length and its items, a key as its
-- 32 bytes.
use multisig_native.Base.{
  ℕ, zero, suc, ◌+◌, ◌%◌, ◌/◌, ◌^◌, ◌≤◌, ◌<◌, ◌≡◌, Bool, List, [], ◌∷◌, ◌++◌, Option, some, length,
  drop, if◌then◌else◌, flat_map, All, sum_of,
}
use multisig_native.Errors.{Result, ok, err, borsh_io_error}
use multisig_native.Sdk.Codec.{Encoding}

-- The lowest `k` bytes of a number, the lowest first.
unfoldable pub little_endian : ℕ → ℕ → List ℕ
little_endian zero n = []
little_endian (suc k) n = (n % 256) ∷ little_endian k (n / 256)

-- A `u8`, a `u32` and a key are numbers below their width.
abbrev pub IsU8 : ℕ → Type 0
IsU8 n = n < 2 ^ 8

abbrev pub IsU32 : ℕ → Type 0
IsU32 n = n < 2 ^ 32

abbrev pub IsU64 : ℕ → Type 0
IsU64 n = n < 2 ^ 64

abbrev pub IsKey : ℕ → Type 0
IsKey n = n < 2 ^ 256

-- `Vec<T>`: its length is a `u32` in the format.
abbrev pub IsVec : {A : Type 0} → (A → Type 0) → List A → Type 0
IsVec F xs = (length xs < 2 ^ 32) × All F xs

pub record Borsh : Type 1 where
  pub u8 : Encoding IsU8 (λ _. 1)
  pub u32 : Encoding IsU32 (λ _. 4)
  pub bool : Encoding {A = Bool} (λ _. Unit {0}) (λ _. 1)
  pub pubkey : Encoding IsKey (λ _. 32)
  pub vec :
      {A : Type 0} {F : A → Type 0} {f : A → ℕ}
      → Encoding F f
      → Encoding (IsVec F) (λ xs. 4 + sum_of f xs)
  -- Reading a whole slice: no byte may be left over.
  pub try_from_slice : {A : Type 0} {F : A → Type 0} {f : A → ℕ} → Encoding F f → List ℕ → Option A
  pub try_from_slice_whole :
      {A : Type 0} {F : A → Type 0} {f : A → ℕ} (c : Encoding F f) (bytes : List ℕ) (a : A)
      → c.read bytes ≡ some (a, [])
      → try_from_slice c bytes ≡ some a
  pub try_from_slice_sound :
      {A : Type 0} {F : A → Type 0} {f : A → ℕ} (c : Encoding F f) (bytes : List ℕ) (a : A)
      → try_from_slice c bytes ≡ some a
      → c.read bytes ≡ some (a, [])
  -- `value.serialize(&mut &mut buffer[..])`: the buffer afterwards, written from its front.
  pub serialize :
      {A : Type 0} {F : A → Type 0} {f : A → ℕ} → Encoding F f → A → List ℕ → Result (List ℕ)
  pub serialize_fits :
      {A : Type 0} {F : A → Type 0} {f : A → ℕ} (c : Encoding F f) (a : A) (buffer : List ℕ)
      → f a ≤ length buffer
      → serialize c a buffer ≡ ok (c.write a ++ drop (f a) buffer)
  pub serialize_full :
      {A : Type 0} {F : A → Type 0} {f : A → ℕ} (c : Encoding F f) (a : A) (buffer : List ℕ)
      → length buffer < f a
      → serialize c a buffer ≡ err borsh_io_error
  -- The format of a vector: its length, then its items; the number 0 is four zero bytes.
  pub vec_write :
      {A : Type 0} {F : A → Type 0} {f : A → ℕ} (c : Encoding F f) (xs : List A)
      → (vec c).write xs ≡ u32.write (length xs) ++ flat_map c.write xs
  pub u8_write : (n : ℕ) → u8.write n ≡ little_endian 1 n
  pub u32_write : (n : ℕ) → u32.write n ≡ little_endian 4 n
  pub bool_write : (v : Bool) → bool.write v ≡ (if v then 1 else 0) ∷ []
  -- The number that stands for a key is the one that its bytes hold in little endian.
  pub pubkey_write : (k : ℕ) → pubkey.write k ≡ little_endian 32 k
