-- ===== src/Client/Encoded.antt =====
-- What the client's encoding makes of the values that stand for keys, bytes and lists: the bytes
-- of crate borsh.
use multisig_native.Base.{
  ℕ, ◌≡◌, ◌%◌, refl, sym, ◌∙◌, Bool, List, [], ◌∷◌, map, flat_map, some, length, All, arith,
}
use multisig_native.Sdk.Bytes.{little_endian-All, length-little_endian}
use multisig_native.Sdk.{Encoding, Borsh, Pubkey, IsU8, IsU32, IsKey, IsVec, little_endian}
use multisig_native.Client.Js.{
  Value, number, boolean, array_of, buffer, values, count, count-values,
}
use multisig_native.Client.Packages.{
  Schema, u8, u32, bool, fixed_array, dynamic_array, serialize_items, Packages,
}

-- A byte is its own encoding.
pub flat_map-little_endian : (xs : List ℕ) → All IsU8 xs → flat_map (little_endian 1) xs ≡ xs
unfolding flat_map little_endian
flat_map-little_endian [] h = refl
flat_map-little_endian (x ∷ xs) (p, h) =
    let low : x % 256 ≡ x = omega arith in rw (low, flat_map-little_endian xs h)

map_same : {A : Type 0} (xs : List A) → map (λ x. x) xs ≡ xs
map_same [] = refl
map_same (x ∷ xs) = rw (map_same xs)

length-map {ℓ} : {A : Type ℓ} {B : Type 0} (h : A → B) (xs : List A) → length (map h xs) ≡ length xs
length-map h [] = refl
length-map h (x ∷ xs) = rw (length-map h xs)

module _ (b : Borsh) (js : Packages) where
  pub serialize-number : (n : ℕ) → IsU8 n → js.serialize u8 (number n) ≡ some (b.u8.write n)
  serialize-number n h = js.serialize_u8 n h ∙ rw (b.u8_write n)

  pub serialize-seqno : (n : ℕ) → IsU32 n → js.serialize u32 (number n) ≡ some (b.u32.write n)
  serialize-seqno n h = js.serialize_u32 n h ∙ rw (b.u32_write n)

  pub serialize-boolean : (v : Bool) → js.serialize bool (boolean v) ≡ some (b.bool.write v)
  serialize-boolean v = js.serialize_bool v ∙ rw (b.bool_write v)

  -- The items of an array, made from objects of the client, and as crate borsh writes what the
  -- objects stand for.
  pub serialize_items-values {ℓ} :
      {A : Type ℓ} {B : Type 0} (F : B → Type 0) (s : Schema) (g : A → Value) (h : A → B)
      (w : B → List ℕ) (xs : List A)
      → ((x : A) → F (h x) → js.serialize s (g x) ≡ some (w (h x)))
      → All F (map h xs)
      → serialize_items (js.serialize s) (values (map g xs)) ≡ some (flat_map w (map h xs))
  unfolding flat_map
  serialize_items-values F s g h w [] each fits = refl
  serialize_items-values F s g h w (x ∷ xs) each (p, fits) =
      rw (each x p, serialize_items-values F s g h w xs each fits)

  pub serialize-array_of {ℓ} :
      {A : Type ℓ} {B : Type 0} {F : B → Type 0} {f : B → ℕ} (c : Encoding F f) (s : Schema)
      (g : A → Value) (h : A → B) (xs : List A)
      → ((x : A) → F (h x) → js.serialize s (g x) ≡ some (c.write (h x)))
      → IsVec F (map h xs)
      → js.serialize (dynamic_array s) (array_of g xs) ≡ some ((b.vec c).write (map h xs))
  serialize-array_of {F = F} c s g h xs each (small, fits) =
      let n : count (values (map g xs)) ≡ length (map h xs) =
        count-values g xs ∙ sym (length-map h xs) in
      let counted : IsU32 (count (values (map g xs))) = rw n small in
      js.serialize_array s (values (map g xs)) counted
      ∙ rw (
        serialize_items-values F s g h c.write xs each fits,
        n,
        b.vec_write c (map h xs),
        b.u32_write (length (map h xs)),
      )

  -- A list of what is written as it is.
  pub serialize-array_of_same :
      {A : Type 0} {F : A → Type 0} {f : A → ℕ} (c : Encoding F f) (s : Schema) (g : A → Value)
      (xs : List A)
      → ((x : A) → F x → js.serialize s (g x) ≡ some (c.write x))
      → IsVec F xs
      → js.serialize (dynamic_array s) (array_of g xs) ≡ some ((b.vec c).write xs)
  serialize-array_of_same {F = F} c s g xs each fits =
      let same = map_same xs in
      let fits' : IsVec F (map (λ x. x) xs) = rw same fits in
      serialize-array_of c s g (λ x. x) xs each fits' ∙ rw same

  pub serialize-buffer :
      (xs : List ℕ) (n : ℕ)
      → length xs ≡ n
      → All IsU8 xs
      → js.serialize (fixed_array u8 n) (buffer xs) ≡ some xs
  serialize-buffer xs n size h =
      let items =
        serialize_items-values IsU8 u8 number (λ x. x) (little_endian 1) xs
          (λ n p. js.serialize_u8 n p) (rw (map_same xs) h) in
      let counted : count (values (map number xs)) ≡ n = count-values number xs ∙ size in
      rw (← counted) (
        js.serialize_fixed u8 (values (map number xs))
        ∙ items
        ∙ rw (map_same xs, flat_map-little_endian xs h))

  pub serialize-key :
      (k : Pubkey)
      → IsKey k
      → js.serialize (fixed_array u8 32) (buffer (js.to_buffer k)) ≡ some (b.pubkey.write k)
  serialize-key k h =
      rw (js.to_buffer_lem k h, b.pubkey_write k)
        (serialize-buffer (little_endian 32 k) 32 (length-little_endian 32 k)
          (little_endian-All 32 k))
