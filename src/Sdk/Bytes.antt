-- ===== src/Sdk/Bytes.antt =====
-- Keys and the bytes that they are written as.
use native.Mathlib.Nat.{pow-suc}
use multisig_native.Base.{
  ℕ, zero, suc, ◌+◌, ◌*◌, ◌%◌, ◌/◌, ◌^◌, ◌<◌, ◌≡◌, refl, ap, List, [], ◌∷◌, ◌++◌, length, take,
  drop, flat_map, All, append_assoc, arith,
}
use multisig_native.Sdk.Format.{little_endian, IsU8, IsKey}
use multisig_native.Sdk.Accounts.{Pubkey}

pub little_endian-All : (k n : ℕ) → All IsU8 (little_endian k n)
unfolding little_endian
little_endian-All zero n = tt
little_endian-All (suc k) n = (omega arith, little_endian-All k (n / 256))

pub length-little_endian : (k n : ℕ) → length (little_endian k n) ≡ k
unfolding little_endian
length-little_endian zero n = refl
length-little_endian (suc k) n = omega (arith, length-little_endian k (n / 256))

-- The number that the bytes hold.
unfoldable pub number_of : List ℕ → ℕ
number_of [] = 0
number_of (x ∷ xs) = x + 256 * number_of xs

pub little_endian-number_of :
    (k : ℕ) (xs : List ℕ) → All IsU8 xs → length xs ≡ k → little_endian k (number_of xs) ≡ xs
unfolding little_endian number_of
little_endian-number_of zero [] h e = refl
little_endian-number_of zero (x ∷ xs) h e = absurd (omega arith)
little_endian-number_of (suc k) [] h e = absurd (omega arith)
little_endian-number_of (suc k) (x ∷ xs) (small, h) e =
    let low : (x + 256 * number_of xs) % 256 ≡ x = omega arith in
    let high : (x + 256 * number_of xs) / 256 ≡ number_of xs = omega arith in
    rw (low, high, little_endian-number_of k xs h (omega arith))

pub number_of-lt : (k : ℕ) (xs : List ℕ) → All IsU8 xs → length xs ≡ k → number_of xs < 256 ^ k
unfolding number_of
number_of-lt zero [] h e = omega arith
number_of-lt zero (x ∷ xs) h e = absurd (omega arith)
number_of-lt (suc k) [] h e = absurd (omega arith)
number_of-lt (suc k) (x ∷ xs) (small, h) e =
    rw (pow-suc 256 k) (omega (arith, number_of-lt k xs h (omega arith)))

-- A key's number in two parts: its first four bytes, and the others.
pub little_endian_split :
    (k : ℕ) → little_endian 4 (k % 2 ^ 32) ++ little_endian 28 (k / 2 ^ 32) ≡ little_endian 32 k
unfolding little_endian
little_endian_split k =
    let a : k % 2 ^ 32 % 256 ≡ k % 256 = omega arith in
    let b : k % 2 ^ 32 / 256 % 256 ≡ k / 256 % 256 = omega arith in
    let c : k % 2 ^ 32 / 256 / 256 % 256 ≡ k / 256 / 256 % 256 = omega arith in
    let d : k % 2 ^ 32 / 256 / 256 / 256 % 256 ≡ k / 256 / 256 / 256 % 256 = omega arith in
    let e : k / 2 ^ 32 ≡ k / 256 / 256 / 256 / 256 = omega arith in rw (a, b, c, d, e) refl

module _ {A : Type 0} where
  take-drop : (n : ℕ) (xs : List A) → take n xs ++ drop n xs ≡ xs
  take-drop zero xs = refl
  take-drop (suc n) [] = refl
  take-drop (suc n) (x ∷ xs) = rw (take-drop n xs)

  length-take : (n m : ℕ) (xs : List A) → length xs ≡ n + m → length (take n xs) ≡ n
  length-take zero m xs h = refl
  length-take (suc n) m [] h = absurd (omega arith)
  length-take (suc n) m (x ∷ xs) h = ap suc (length-take n m xs (omega arith))

  length-drop : (n m : ℕ) (xs : List A) → length xs ≡ n + m → length (drop n xs) ≡ m
  length-drop zero m xs h = omega arith
  length-drop (suc n) m [] h = absurd (omega arith)
  length-drop (suc n) m (x ∷ xs) h = length-drop n m xs (omega arith)

  take-All : (P : A → Type 0) (n : ℕ) (xs : List A) → All P xs → All P (take n xs)
  take-All P zero xs h = tt
  take-All P (suc n) [] h = tt
  take-All P (suc n) (x ∷ xs) (p, h) = (p, take-All P n xs h)

  drop-All : (P : A → Type 0) (n : ℕ) (xs : List A) → All P xs → All P (drop n xs)
  drop-All P zero xs h = h
  drop-All P (suc n) [] h = tt
  drop-All P (suc n) (x ∷ xs) (p, h) = drop-All P n xs h

  pub append-All : (P : A → Type 0) (xs ys : List A) → All P xs → All P ys → All P (xs ++ ys)
  append-All P [] ys h h' = h'
  append-All P (x ∷ xs) ys (p, h) h' = (p, append-All P xs ys h h')

  pub flat_map-All :
      {B : Type 0} (P : A → Type 0) (f : B → List A) (xs : List B)
      → ((x : B) → All P (f x))
      → All P (flat_map f xs)
  unfolding flat_map
  flat_map-All P f [] h = tt
  flat_map-All P f (x ∷ xs) h = append-All P (f x) (flat_map f xs) (h x) (flat_map-All P f xs h)

  pub flat_map-append :
      {B : Type 0} (f : B → List A) (xs ys : List B)
      → flat_map f (xs ++ ys) ≡ flat_map f xs ++ flat_map f ys
  unfolding flat_map
  flat_map-append f [] ys = refl
  flat_map-append f (x ∷ xs) ys =
      rw (flat_map-append f xs ys, append_assoc (f x) (flat_map f xs) (flat_map f ys))

-- `n` keys that have these bytes.
unfoldable pub keys_of : ℕ → List ℕ → List Pubkey
unfolding number_of
keys_of zero bytes = []
keys_of (suc n) bytes = number_of (take 32 bytes) ∷ keys_of n (drop 32 bytes)

pub length-keys_of : (n : ℕ) (bytes : List ℕ) → length (keys_of n bytes) ≡ n
unfolding keys_of
length-keys_of zero bytes = refl
length-keys_of (suc n) bytes = ap suc (length-keys_of n (drop 32 bytes))

pub flat_map-keys_of :
    (n : ℕ) (bytes : List ℕ)
    → All IsU8 bytes
    → length bytes ≡ 32 * n
    → flat_map (little_endian 32) (keys_of n bytes) ≡ bytes
unfolding keys_of flat_map
flat_map-keys_of zero [] h e = refl
flat_map-keys_of zero (x ∷ bytes) h e = absurd (omega arith)
flat_map-keys_of (suc n) bytes h e =
    let split : length bytes ≡ 32 + 32 * n = omega arith in
    rw
      (
        little_endian-number_of 32 (take 32 bytes) (take-All IsU8 32 bytes h)
            (length-take 32 (32 * n) bytes split),
        flat_map-keys_of n (drop 32 bytes) (drop-All IsU8 32 bytes h)
            (length-drop 32 (32 * n) bytes split),
      )
      (take-drop 32 bytes)

pub keys_of-All :
    (n : ℕ) (bytes : List ℕ) → All IsU8 bytes → length bytes ≡ 32 * n → All IsKey (keys_of n bytes)
unfolding keys_of
keys_of-All zero bytes h e = tt
keys_of-All (suc n) bytes h e =
    let split : length bytes ≡ 32 + 32 * n = omega arith in
    (
      number_of-lt 32 (take 32 bytes) (take-All IsU8 32 bytes h)
          (length-take 32 (32 * n) bytes split),
      keys_of-All n (drop 32 bytes) (drop-All IsU8 32 bytes h)
          (length-drop 32 (32 * n) bytes split),
    )
