-- ===== src/Tests/Machine.antt =====
-- A runtime to run the program on. Its system program makes accounts and moves lamports, and no
-- other program is installed.
use multisig_native.Base.{
  ℕ, zero, suc, ◌+◌, ◌-◌, ◌≤◌, ◌<◌, ◌≡◌, ◌≢◌, refl, Bool, ◌&&◌, true, false, not, List, [], ◌∷◌,
  ◌++◌, Option, none, some, length, drop, is_empty, replicate, flat_map, leb, ◌==◌, if◌then◌else◌,
  le→leb, arith,
}
use multisig_native.Errors.{Result, ok, err, borsh_io_error, not_enough_account_keys, other}
use multisig_native.Sdk.{
  Encoding, Borsh, Pubkey, AccountInfo, AccountMeta, Instruction, Store, put, Runtime,
}
use multisig_native.Tests.LittleEndian.{uint, bool, write_bool}
use multisig_native.Tests.Vectors.{vec, write_items}

module _ {A : Type 0} {F : A → Type 0} {f : A → ℕ} (c : Encoding F f) where
  abbrev pub whole : Option (A × List ℕ) → Option A
  whole none = none
  whole (some (a, rest)) = if is_empty rest then some a else none

  pub whole_lem : (r : Option (A × List ℕ)) (a : A) → r ≡ some (a, []) → whole r ≡ some a
  whole_lem r a h = rw h

  pub whole_sound : (r : Option (A × List ℕ)) (a : A) → whole r ≡ some a → r ≡ some (a, [])
  whole_sound none a h = cc
  whole_sound (some (b, [])) a h = cc
  whole_sound (some (b, x ∷ rest)) a h = cc

  abbrev pub serialize : A → List ℕ → Result (List ℕ)
  serialize a buffer =
      if leb (f a) (length buffer) then ok (c.write a ++ drop (f a) buffer) else err borsh_io_error

  pub serialize_fits :
      (a : A) (buffer : List ℕ)
      → f a ≤ length buffer
      → serialize a buffer ≡ ok (c.write a ++ drop (f a) buffer)
  serialize_fits a buffer h = rw (le→leb (f a) (length buffer) h)

  pub serialize_full :
      (a : A) (buffer : List ℕ) → length buffer < f a → serialize a buffer ≡ err borsh_io_error
  serialize_full a buffer h = ground arith

pub bool_write : (v : Bool) → write_bool v ≡ (if v then 1 else 0) ∷ []
bool_write true = refl
bool_write false = refl

pub write_items_lem :
    {A : Type 0} {F : A → Type 0} {f : A → ℕ} (c : Encoding F f) (xs : List A)
    → write_items c xs ≡ flat_map c.write xs
unfolding write_items flat_map
write_items_lem c [] = refl
write_items_lem c (x ∷ xs) = rw (write_items_lem c xs)

pub vec_write :
    {A : Type 0} {F : A → Type 0} {f : A → ℕ} (c : Encoding F f) (xs : List A)
    → (vec c).write xs ≡ (uint 4).write (length xs) ++ flat_map c.write xs
vec_write c xs = rw (write_items_lem c xs)

abbrev pub borsh : Borsh
borsh = record {
  u8 = uint 1;
  u32 = uint 4;
  bool = bool;
  pubkey = uint 32;
  vec = λ c. vec c;
  try_from_slice = λ c bytes. whole c (c.read bytes);
  try_from_slice_whole = λ c bytes a h. whole_lem c (c.read bytes) a h;
  try_from_slice_sound = λ c bytes a h. whole_sound c (c.read bytes) a h;
  serialize = λ c. serialize c;
  serialize_fits = λ c. serialize_fits c;
  serialize_full = λ c. serialize_full c;
  vec_write = λ c xs. vec_write c xs;
  u8_write = λ n. refl;
  u32_write = λ n. refl;
  bool_write = bool_write;
  pubkey_write = λ k. refl;
}

abbrev pub next_account_info : List AccountInfo → Result (AccountInfo × List AccountInfo)
next_account_info [] = err not_enough_account_keys
next_account_info (a ∷ rest) = ok (a, rest)

-- The first `n` bytes, filled up with zeros.
abbrev pub fit : ℕ → List ℕ → List ℕ
fit zero bytes = []
fit (suc n) [] = 0 ∷ fit n []
fit (suc n) (b ∷ bytes) = b ∷ fit n bytes

abbrev pub create_account : Pubkey → Pubkey → ℕ → ℕ → Pubkey → Instruction
create_account payer to lamports space owner = record {
  program_id = 0;
  accounts =
      record { pubkey = payer; is_signer = true; is_writable = true }
      ∷ record { pubkey = to; is_signer = true; is_writable = true }
      ∷ [];
  bytes = lamports ∷ space ∷ owner ∷ [];
}

abbrev pub new_account : Pubkey → Pubkey → ℕ → ℕ → Pubkey → Store → Store
new_account payer to lamports space owner s =
    put (put s payer (record (s payer) { lamports = (s payer).lamports - lamports })) to
      (record { lamports = lamports; bytes = replicate space 0; owner = owner })

abbrev pub make : Pubkey → Pubkey → ℕ → ℕ → Pubkey → Store → Result Store
make payer to lamports space owner s =
    if (s to).owner == 0
      && (s to).lamports == 0
      && is_empty (s to).bytes
      && not (payer == to)
      && leb lamports (s payer).lamports
    then ok (new_account payer to lamports space owner s)
    else err (other 0)

abbrev pub move : AccountMeta → Pubkey → ℕ → Store → Result Store
move from to lamports s =
    if from.is_signer && not (from.pubkey == to) && leb lamports (s from.pubkey).lamports
    then ok (
        put
          (put s from.pubkey
            (record (s from.pubkey) { lamports = (s from.pubkey).lamports - lamports }))
          to (record (s to) { lamports = (s to).lamports + lamports }))
    else err (other 1)

abbrev pub run : List AccountMeta → List ℕ → Store → Result Store
run (payer ∷ to ∷ []) (lamports ∷ space ∷ owner ∷ []) s =
    make payer.pubkey to.pubkey lamports space owner s
run (from ∷ to ∷ []) (lamports ∷ []) s = move from to.pubkey lamports s
run _ _ s = err (other 2)

abbrev pub invoke : Instruction → List AccountInfo → Store → Result Store
invoke ix infos s = if ix.program_id == 0 then run ix.accounts ix.bytes s else err (other 3)

is_empty_eq : {A : Type 0} (xs : List A) → is_empty xs ≡ true → xs ≡ []
is_empty_eq [] h = refl
is_empty_eq (x ∷ xs) h = cc

create_account_made :
    (payer to : Pubkey) (lamports space : ℕ) (owner : Pubkey) (infos : List AccountInfo)
    (s t : Store)
    → invoke (create_account payer to lamports space owner) infos s ≡ ok t
    → t ≡ new_account payer to lamports space owner s
create_account_made payer to lamports space owner infos s t h = ground arith

pub create_account_new :
    (payer to : Pubkey) (lamports space : ℕ) (owner : Pubkey) (infos : List AccountInfo)
    (s t : Store)
    → invoke (create_account payer to lamports space owner) infos s ≡ ok t
    → ((s to).lamports ≡ 0)
      × ((s to).bytes ≡ [])
      × (t to ≡ record { lamports = lamports; bytes = replicate space 0; owner = owner })
unfolding put
create_account_new payer to lamports space owner infos s t h = (
  ground arith,
  ground (arith, is_empty_eq (s to).bytes),
  rw (create_account_made payer to lamports space owner infos s t h) (ground arith),
)

pub create_account_others :
    (payer to : Pubkey) (lamports space : ℕ) (owner : Pubkey) (infos : List AccountInfo)
    (s t : Store)
    → invoke (create_account payer to lamports space owner) infos s ≡ ok t
    → (k : Pubkey) → k ≢ to
    → ((t k).bytes ≡ (s k).bytes)
      × ((t k).owner ≡ (s k).owner)
      × (k ≢ payer → (t k).lamports ≡ (s k).lamports)
unfolding put
create_account_others payer to lamports space owner infos s t h k ne =
    rw (create_account_made payer to lamports space owner infos s t h)
      (ground arith, ground arith, λ ne'. ground arith)

abbrev pub machine : Runtime
machine = record {
  borsh = borsh;
  system_program = 0;
  next_account_info = next_account_info;
  next_account_info-nil = refl;
  next_account_info-cons = λ a rest. refl;
  create_program_address = λ seeds program_id. some (seeds.address + 100);
  rent_get = ok (λ n. n + 128);
  meta_new = λ k b. record { pubkey = k; is_signer = b; is_writable = true };
  meta_new_lem = λ k b. refl;
  meta_new_readonly = λ k b. record { pubkey = k; is_signer = b; is_writable = false };
  meta_new_readonly_lem = λ k b. refl;
  resize = λ a n. ok (record a { bytes = fit n a.bytes });
  resize_zero = λ a. refl;
  assign = λ a k. record a { owner = k };
  assign_lem = λ a k. refl;
  create_account = create_account;
  invoke = invoke;
  invoke_signed = λ ix infos seeds s. invoke ix infos s;
  create_account_new = create_account_new;
  create_account_others = create_account_others;
}
