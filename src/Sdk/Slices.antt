-- ===== src/Sdk/Slices.antt =====
-- Consequences of the laws of `Borsh` for a value that fills its buffer exactly.
use multisig_native.Base.{
  ℕ, ◌≡◌, sym, ap, ◌∙◌, List, [], append-nil, some, length, drop-length, replicate,
  length-replicate, arith,
}
use multisig_native.Errors.{ok}
use multisig_native.Sdk.Codec.{Encoding}
use multisig_native.Sdk.Format.{Borsh}

module _ (b : Borsh) {A : Type 0} {F : A → Type 0} {f : A → ℕ} (c : Encoding F f) where
  -- What is read from a slice is what the slice is the encoding of.
  pub try_from_slice-write : (a : A) → F a → b.try_from_slice c (c.write a) ≡ some a
  try_from_slice-write a h =
      b.try_from_slice_whole c (c.write a) a (rw (← append-nil (c.write a)) (c.read-write a [] h))

  pub write_of_try_from_slice :
      (bytes : List ℕ) (a : A) → b.try_from_slice c bytes ≡ some a → (bytes ≡ c.write a) × F a
  write_of_try_from_slice bytes a h =
      let (e, fits) = c.read_sound bytes a [] (b.try_from_slice_sound c bytes a h) in
      (e ∙ append-nil (c.write a), fits)

  pub length_of_try_from_slice :
      (bytes : List ℕ) (a : A) → b.try_from_slice c bytes ≡ some a → length bytes ≡ f a
  length_of_try_from_slice bytes a h =
      ap length (write_of_try_from_slice bytes a h).0 ∙ c.length-write a

  -- A value as long as the buffer replaces the whole of it.
  pub serialize_exact :
      (a : A) (buffer : List ℕ) → length buffer ≡ f a → b.serialize c a buffer ≡ ok (c.write a)
  serialize_exact a buffer h =
      rw (b.serialize_fits c a buffer (omega arith), ← h, drop-length buffer, append-nil)

  -- So does a value as long as the one that is stored.
  pub serialize_over :
      (old new : A) (buffer : List ℕ)
      → b.try_from_slice c buffer ≡ some old
      → f new ≡ f old
      → b.serialize c new buffer ≡ ok (c.write new)
  serialize_over old new buffer h e =
      serialize_exact new buffer (length_of_try_from_slice buffer old h ∙ sym e)

  pub serialize_zeroed : (a : A) → b.serialize c a (replicate (f a) 0) ≡ ok (c.write a)
  serialize_zeroed a = serialize_exact a (replicate (f a) 0) (length-replicate (f a) 0)
