-- ===== src/Tests/Dsl.antt =====
-- The client's list of accounts for an execution, at concrete instructions.
use Prim.Native.String.{String}
use multisig_native.Base.{
  ℕ, zero, suc, ◌+◌, ◌*◌, ◌<◌, ◌≡◌, refl, sym, ap, ◌∙◌, Bool, true, false, List, [], ◌∷◌, map, some,
  HasItem, arith, flat_map,
}
use multisig_native.Sdk.{AccountMeta}
use multisig_native.Instructions.ExecuteTransaction.{signed_instruction}
use multisig_native.Client.Packages.{TransactionInstruction}
use multisig_native.Client.Instructions.{meta}
use multisig_native.Client.Requests.{data_of}
use multisig_native.Client.Processed.{info_of}
use multisig_native.Client.Dsl.{
  MetaObject, signer_first, writable_first, Json, accounts_of, deduped,
  execute_transaction_with_multiple_instructions,
}
use multisig_native.Client.Dsl.Suffices.{
  Suffices, execute_transaction_with_multiple_instructions-Suffices,
}
use multisig_native.Tests.Machine.{machine}
use multisig_native.Tests.Packages.{packages}

-- A text for each account object: its number in strokes.
abbrev bit : Bool → ℕ
bit true = 1
bit false = 0

abbrev number_of : MetaObject → ℕ
number_of (signer_first m) = m.pubkey * 8 + bit m.is_signer * 4 + bit m.is_writable * 2
number_of (writable_first m) = m.pubkey * 8 + bit m.is_signer * 4 + bit m.is_writable * 2 + 1

unfoldable strokes : ℕ → String
strokes zero = String.[]
strokes (suc n) = String.◌∷◌ "I" (strokes n)

count_strokes : String → ℕ
count_strokes String.[] = 0
count_strokes (String.◌∷◌ c s) = suc (count_strokes s)

count_strokes-strokes : (n : ℕ) → count_strokes (strokes n) ≡ n
unfolding strokes count_strokes
count_strokes-strokes zero = refl
count_strokes-strokes (suc n) = ap suc (count_strokes-strokes n)

bit_small : (v : Bool) → bit v < 2
bit_small true = omega arith
bit_small false = omega arith

bit_injective : (v w : Bool) → bit v ≡ bit w → v ≡ w
bit_injective true true h = refl
bit_injective true false h = absurd (omega arith)
bit_injective false true h = absurd (omega arith)
bit_injective false false h = refl

-- A number for an account, even, and those of different accounts are different.
meta_injective :
    (m n : AccountMeta)
    → m.pubkey * 8 + bit m.is_signer * 4 + bit m.is_writable * 2
      ≡ n.pubkey * 8 + bit n.is_signer * 4 + bit n.is_writable * 2
    → m ≡ n
meta_injective m n h =
    let a = bit_small m.is_signer in
    let b = bit_small m.is_writable in
    let c = bit_small n.is_signer in
    let d = bit_small n.is_writable in
    let key : m.pubkey ≡ n.pubkey = omega arith in
    let signer : bit m.is_signer ≡ bit n.is_signer = omega arith in
    let writable : bit m.is_writable ≡ bit n.is_writable = omega arith in
    λ i. record {
      pubkey = key i;
      is_signer = bit_injective m.is_signer n.is_signer signer i;
      is_writable = bit_injective m.is_writable n.is_writable writable i;
    }

number_of_injective : (a b : MetaObject) → number_of a ≡ number_of b → a ≡ b
number_of_injective (signer_first m) (signer_first n) h = ap signer_first (meta_injective m n h)
number_of_injective (signer_first m) (writable_first n) h = absurd (omega arith)
number_of_injective (writable_first m) (signer_first n) h = absurd (omega arith)
number_of_injective (writable_first m) (writable_first n) h =
    ap writable_first (meta_injective m n (omega arith))

abbrev json : Json
json = record {
  stringify = λ o. strokes (number_of o);
  stringify_injective = λ a b h. number_of_injective a b (
      sym (count_strokes-strokes (number_of a))
      ∙ ap count_strokes h
      ∙ count_strokes-strokes (number_of b));
}

-- Two transfers by the program 0 from the multisig's address 11, one of them back.
abbrev transfers : List TransactionInstruction
transfers =
    record { keys = meta 11 true true ∷ meta 4 false true ∷ []; program_id = 0; bytes = 5 ∷ [] }
    ∷ record { keys = meta 4 true true ∷ meta 11 false true ∷ []; program_id = 0; bytes = 5 ∷ [] }
    ∷ []

abbrev objects : List MetaObject
objects =
    signer_first (meta 11 false true)
    ∷ signer_first (meta 4 false true)
    ∷ writable_first (meta 0 false false)
    ∷ signer_first (meta 4 true true)
    ∷ signer_first (meta 11 false true)
    ∷ writable_first (meta 0 false false)
    ∷ []

-- The address does not sign, and what is there twice is dropped; the account 4 stays, once with
-- its signature and once without.
transfers_accounts : flat_map (accounts_of 11) transfers ≡ objects
unfolding accounts_of flat_map
transfers_accounts = refl

without_doubles :
    deduped json objects
    ≡ signer_first (meta 11 false true)
      ∷ signer_first (meta 4 false true)
      ∷ writable_first (meta 0 false false)
      ∷ signer_first (meta 4 true true)
      ∷ []
unfolding deduped strokes
without_doubles = refl

execute_transaction_with_multiple_instructions-Suffices_example :
    (sent : TransactionInstruction) × (execute_transaction_with_multiple_instructions json packages
        7 20 transfers 11 10 3 30
      ≡ some sent)
    × ((ix : TransactionInstruction)
        → HasItem transfers ix
        → Suffices (map info_of sent.keys) 11 (signed_instruction machine 11 (data_of ix)))
execute_transaction_with_multiple_instructions-Suffices_example =
    execute_transaction_with_multiple_instructions-Suffices machine packages json 7 20 transfers 11
      10 3 30
