-- ===== src/Lifecycle/Forged.antt =====
-- A multisig whose data reads as a transaction: what `create_multisig`
-- (program/src/instructions/create_multisig.rs) can store for the other instructions to read.
-- Neither kind of account is marked (program/src/state).
use multisig_native.Base.{
  ℕ, ◌+◌, ◌*◌, ◌%◌, ◌/◌, ◌^◌, ◌≡◌, refl, sym, ap, ◌∙◌, Bool, true, false, List, [], ◌∷◌, ◌++◌,
  append_assoc, flat_map, length, length-append, All, some, get_elem?, if◌then◌else◌, arith,
}
use multisig_native.Errors.{ok}
use multisig_native.Sdk.{Pubkey, AccountInfo, Store, Runtime, Borsh, IsU8, little_endian}
use multisig_native.Sdk.Bytes.{
  little_endian-All, length-little_endian, little_endian_split, keys_of, length-keys_of,
  flat_map-keys_of, keys_of-All, append-All, flat_map-All, flat_map-append,
}
use multisig_native.State.InstructionData.{
  TransactionInstructionAccount, TransactionInstructionData,
}
use multisig_native.State.MultisigAccount.{IsMultisig}
use multisig_native.State.TransactionAccount.{Transaction, IsTransaction, transaction_codec}
use multisig_native.State.TransactionAccount
use multisig_native.State.Layout.{
  listed, flag, account_layout, instruction_layout, transaction_layout, multisig_layout,
  multisig_bytes-multisig_layout, transaction_bytes-transaction_layout,
}
use multisig_native.State.Stored.{
  multisig_bytes, transaction_bytes, multisig_stored, checked_deserialize-transaction_bytes,
}
use multisig_native.State.Saved.{HoldsTransaction}
use multisig_native.Instructions.CreateMultisig.{
  CreateMultisigInstruction, multisig_data, create_multisig,
}
use multisig_native.Instructions.CreateMultisig.Created.{create_multisig-Created}

-- What is written are bytes.
listed-All :
    {A : Type 0} (f : A → List ℕ) (xs : List A)
    → ((x : A) → All IsU8 (f x))
    → All IsU8 (listed f xs)
unfolding listed
listed-All f xs h =
    append-All IsU8 (little_endian 4 (length xs)) (flat_map f xs) (little_endian-All 4 (length xs))
      (flat_map-All IsU8 f xs h)

flag-All : (v : Bool) → All IsU8 (flag v)
flag-All true = (omega arith, tt)
flag-All false = (omega arith, tt)

account_layout-All : (a : TransactionInstructionAccount) → All IsU8 (account_layout a)
unfolding account_layout
account_layout-All a =
    append-All IsU8 (little_endian 32 a.pubkey) (flag a.is_signer ++ flag a.is_writable)
      (little_endian-All 32 a.pubkey)
      (append-All IsU8 (flag a.is_signer) (flag a.is_writable) (flag-All a.is_signer)
        (flag-All a.is_writable))

instruction_layout-All : (ix : TransactionInstructionData) → All IsU8 (instruction_layout ix)
unfolding instruction_layout
instruction_layout-All ix =
    append-All IsU8 (little_endian 32 ix.program_id) _ (little_endian-All 32 ix.program_id) (
      append-All IsU8 (listed account_layout ix.accounts) (listed (little_endian 1) ix.bytes)
        (listed-All account_layout ix.accounts account_layout-All)
        (listed-All (little_endian 1) ix.bytes (little_endian-All 1)))

bit_byte : (v : Bool) → (if v then 1 else 0) % 256 ≡ (if v then 1 else 0)
bit_byte true = refl
bit_byte false = refl

bit_small : (v : Bool) → IsU8 (if v then 1 else 0)
bit_small true = omega arith
bit_small false = omega arith

no_padding : listed (little_endian 1) [] ≡ little_endian 4 0
unfolding listed flat_map little_endian
no_padding = refl

regroup :
    (a b c d e f g : List ℕ)
    → (a ++ b) ++ (c ++ ((d ++ (e ++ f)) ++ g)) ≡ a ++ ((b ++ (c ++ (d ++ e))) ++ (f ++ g))
regroup a b c d e f g = simp append_assoc

length_bytes :
    (b : Borsh) (t : Transaction) → length (transaction_bytes b t) ≡ TransactionAccount.len t
unfolding transaction_bytes
length_bytes b t = (transaction_codec b).length-write t

module _ (transaction : Transaction) (votes : List Bool) (nonce : Bool) where
  -- The bytes of the transaction behind the first four, up to the last six votes.
  unfoldable pub inner_bytes : List ℕ
  inner_bytes =
      little_endian 28 (transaction.multisig / 2 ^ 32)
      ++ (listed instruction_layout transaction.instructions
          ++ (little_endian 4 (length transaction.signers) ++ flat_map flag votes))

  inner_bytes-All : All IsU8 inner_bytes
  unfolding inner_bytes
  inner_bytes-All =
      append-All IsU8 (little_endian 28 (transaction.multisig / 2 ^ 32)) _
        (little_endian-All 28 (transaction.multisig / 2 ^ 32))
        (append-All IsU8 (listed instruction_layout transaction.instructions) _
          (listed-All instruction_layout transaction.instructions instruction_layout-All)
          (append-All IsU8 (little_endian 4 (length transaction.signers)) (flat_map flag votes)
            (little_endian-All 4 (length transaction.signers))
            (flat_map-All IsU8 flag votes flag-All)))

  -- The multisig that has these bytes: as many owners as the first four bytes of the transaction
  -- say, threshold one.
  unfoldable pub forging : CreateMultisigInstruction
  unfolding inner_bytes
  forging = record {
    owners = keys_of (transaction.multisig % 2 ^ 32) inner_bytes;
    threshold = 1;
    nonce = if nonce then 1 else 0;
  }

  -- The last six votes, which are where the multisig has its threshold, its nonce and its
  -- sequence number.
  abbrev pub last_votes : List Bool
  last_votes = true ∷ nonce ∷ false ∷ false ∷ false ∷ false ∷ []

  abbrev ending : List ℕ
  ending =
      little_endian 1 1
      ++ (little_endian 1 (if nonce then 1 else 0) ++ (little_endian 4 0 ++ little_endian 4 0))

  -- What can be forged: a transaction of present owners whose last votes are as above, and that is
  -- as long as a multisig of so many owners.
  pub record IsForgeable : Type 0 where
    pub seqno : transaction.owner_set_seqno ≡ 0
    pub signers : transaction.signers ≡ votes ++ last_votes
    pub size : TransactionAccount.len transaction ≡ 32 * (transaction.multisig % 2 ^ 32) + 14

  ending_lem : flat_map flag last_votes ++ little_endian 4 0 ≡ ending
  unfolding flat_map little_endian
  ending_lem = rw (bit_byte nonce) refl

  length-ending : length ending ≡ 10
  unfolding little_endian
  length-ending = refl

  transaction_layout_parts :
      IsForgeable
      → transaction_layout transaction
        ≡ little_endian 4 (transaction.multisig % 2 ^ 32) ++ (inner_bytes ++ ending)
  unfolding transaction_layout inner_bytes listed
  transaction_layout_parts h =
      let k = transaction.multisig in
      let votes_split = ap (flat_map flag) h.signers ∙ flat_map-append flag votes last_votes in
      rw (h.seqno, votes_split, ← ending_lem, ← little_endian_split k)
        (regroup (little_endian 4 (k % 2 ^ 32)) (little_endian 28 (k / 2 ^ 32))
          (listed instruction_layout transaction.instructions)
          (little_endian 4 (length transaction.signers)) (flat_map flag votes)
          (flat_map flag last_votes) (little_endian 4 0))

  length-inner_bytes :
      (b : Borsh) → IsForgeable → length inner_bytes ≡ 32 * (transaction.multisig % 2 ^ 32)
  length-inner_bytes b h =
      let n = transaction.multisig % 2 ^ 32 in
      let whole : length (transaction_layout transaction) ≡ TransactionAccount.len transaction =
        rw (← transaction_bytes-transaction_layout b transaction) (length_bytes b transaction) in
      let parts = ap (λ (xs : List ℕ). length xs) (transaction_layout_parts h) in
      omega (
        arith,
        h.size,
        length-append (little_endian 4 n) (inner_bytes ++ ending),
        length-append inner_bytes ending,
        length-little_endian 4 n,
        length-ending,
      )

  forging-transaction_layout :
      (b : Borsh)
      → IsForgeable
      → multisig_layout (multisig_data forging) ≡ transaction_layout transaction
  unfolding multisig_layout forging listed flat_map
  forging-transaction_layout b h =
      let n = transaction.multisig % 2 ^ 32 in
      rw
        (
          transaction_layout_parts h,
          length-keys_of n inner_bytes,
          flat_map-keys_of n inner_bytes inner_bytes-All (length-inner_bytes b h),
          no_padding,
        )
        (append_assoc (little_endian 4 n) inner_bytes ending)

  forging-IsMultisig : (b : Borsh) → IsForgeable → IsMultisig (multisig_data forging)
  unfolding forging
  forging-IsMultisig b h =
      let n = transaction.multisig % 2 ^ 32 in
      record {
        owners_fit = (
          omega (arith, length-keys_of n inner_bytes),
          keys_of-All n inner_bytes inner_bytes-All (length-inner_bytes b h),
        );
        threshold_fits = omega arith;
        nonce_fits = bit_small nonce;
        seqno_fits = omega arith;
        padding_fits = (omega arith, tt);
      }

module _ (rt : Runtime) (program_id : Pubkey) where
  -- Take any transaction whose fields are of their types, whose sequence number is zero, whose
  -- votes end in true, any one vote, and four times false, and which is 14 bytes longer than 32
  -- for each of as many owners as the first four bytes of its multisig's key say. If
  -- create_multisig succeeds with the owners, threshold and nonce that its bytes are cut into,
  -- then the new account is the program's and reads as that transaction, with all its votes.
  pub create_multisig-forged :
      (accounts : List AccountInfo) (s t : Store) (transaction : Transaction) (votes : List Bool)
      (nonce : Bool)
      → IsTransaction transaction
      → IsForgeable transaction votes nonce
      → create_multisig rt program_id accounts (forging transaction votes nonce) s ≡ ok t
      → (multisig_account : AccountInfo) × (get_elem? accounts 0 ≡ some multisig_account)
        × ((t multisig_account.key).owner ≡ program_id)
        × HoldsTransaction rt t multisig_account.key transaction
  create_multisig-forged accounts s t transaction votes nonce typed forgeable h =
      let ix = forging transaction votes nonce in
      let fits = forging-IsMultisig transaction votes nonce rt.borsh forgeable in
      let c = create_multisig-Created rt program_id accounts ix s t fits h in
      let (stored, _, _) = multisig_stored rt.borsh _ (multisig_data ix) c.holds in
      let same : multisig_bytes rt.borsh (multisig_data ix)
          ≡ transaction_bytes rt.borsh transaction =
        multisig_bytes-multisig_layout rt.borsh (multisig_data ix)
        ∙ forging-transaction_layout transaction votes nonce rt.borsh forgeable
        ∙ sym (transaction_bytes-transaction_layout rt.borsh transaction) in
      (
        c.multisig_account,
        rw c.given,
        c.owned,
        rw (stored, same) (checked_deserialize-transaction_bytes rt.borsh transaction typed),
      )
