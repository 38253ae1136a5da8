-- ===== src/Lifecycle/Ballot.antt =====
-- A vote among the owners of a multisig, as the README describes it: keys without order, no
-- encoding, no indices.
pub mod Views
pub mod Refined
use mathlib.Core.Bool.{Bool-set}
use mathlib.Core.List.{Permᴰ}
use mathlib.Core.Quot
use mathlib.Core.Quot.{Quot, Quot-set}
use native.Mathlib.Nat.{ℕ_set}
use multisig_native.Base.{
  ℕ, suc, ◌≡◌, refl, sym, ap, ◌∙◌, Bool, true, false, ◌||◌, List, [], ◌∷◌, Option, none, some,
  length, contains, leb, if◌then◌else◌, ◌==◌, Bool-cases, inl, inr,
}
use multisig_native.Sdk.{Pubkey}

or_swap : (x y z : Bool) → (x || (y || z)) ≡ (y || (x || z))
or_swap true true z = refl
or_swap true false z = refl
or_swap false y z = refl

pub contains-perm : {xs ys : List Pubkey} (a : Pubkey) → Permᴰ xs ys → contains xs a ≡ contains ys a
contains-perm a Permᴰ.nil = refl
contains-perm a (Permᴰ.cons e p) = rw (e, contains-perm a p)
contains-perm a (Permᴰ.swap {a = x} {b = y} {a' = x'} {b' = y'} {l = l} e e') =
    rw (e, e') (or_swap (y' == a) (x' == a) (contains l a))
contains-perm a (Permᴰ.trans p q) = contains-perm a p ∙ contains-perm a q

pub length-perm : {xs ys : List Pubkey} → Permᴰ xs ys → length xs ≡ length ys
length-perm Permᴰ.nil = refl
length-perm (Permᴰ.cons e p) = ap suc (length-perm p)
length-perm (Permᴰ.swap e e') = refl
length-perm (Permᴰ.trans p q) = length-perm p ∙ length-perm q

-- Keys, in no order.
abbrev pub Keys : Type 0
Keys = Quot {α = List Pubkey} Permᴰ

abbrev pub keys : List Pubkey → Keys
keys xs = Quot.mk xs

unfoldable pub holds : Keys → Pubkey → Bool
holds ks a = Quot.lift Bool-set (λ xs. contains xs a) (λ xs ys p. contains-perm a p) ks

unfoldable pub size : Keys → ℕ
size = Quot.lift ℕ_set (λ xs. length xs) (λ xs ys p. length-perm p)

unfoldable pub with_key : Pubkey → Keys → Keys
with_key a = Quot.lift Quot-set (λ xs. keys (a ∷ xs)) (λ xs ys p. Quot.sound (Permᴰ.cons refl p))

pub record Ballot : Type 0 where
  pub owners : Keys
  pub threshold : ℕ
  pub voters : Keys

-- A proposal by an owner, whose vote it has.
unfoldable pub opened : Keys → ℕ → Pubkey → Option Ballot
unfolding holds with_key
opened owners threshold a =
    if holds owners a
    then some (record { owners = owners; threshold = threshold; voters = with_key a (keys []) })
    else none

-- The vote of an owner, which counts once.
unfoldable pub approved : Pubkey → Ballot → Option Ballot
unfolding holds with_key
approved a b =
    if holds b.owners a
    then some (record b { voters = if holds b.voters a then b.voters else with_key a b.voters })
    else none

-- There are enough votes.
unfoldable pub passes : Ballot → Bool
unfolding size
passes b = leb b.threshold (size b.voters)
