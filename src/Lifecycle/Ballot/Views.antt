-- ===== src/Lifecycle/Ballot/Views.antt =====
-- A multisig and a transaction as a ballot, and what a new vote makes of it (the `signers` of
-- program/src/state/transaction.rs).
use mathlib.Core.List.{Permᴰ}
use mathlib.Core.List.Permᴰ
use mathlib.Core.Quot
use multisig_native.Base.{
  ℕ, zero, suc, ◌<◌, ◌≤◌, ◌≡◌, refl, sym, ap, ◌∙◌, Bool, true, false, ◌⊎◌, List, [], ◌∷◌, some,
  length, contains, contains_index, contains-get_elem?, get_elem?, get_elem?-lt, set, replicate,
  Bool-cases, inl, inr, arith,
}
use multisig_native.Errors.Unique.{IsUnique}
use multisig_native.Sdk.{Pubkey}
use multisig_native.State.MultisigAccount.{Multisig}
use multisig_native.State.TransactionAccount.{Transaction}
use multisig_native.State.Saved.{with_vote}
use multisig_native.Instructions.ExecuteTransaction.Approvals.{set-voted}
use multisig_native.Instructions.ProposeTransaction.{ProposeTransactionInstruction}
use multisig_native.Instructions.ProposeTransaction.Proposed.{proposed}
use multisig_native.Instructions.ExecuteTransaction.{count_signed}
use multisig_native.Lifecycle.Ballot.{keys, holds, with_key, Ballot, opened, approved}
use multisig_native.Lifecycle.Signatories.{signatories, signatories-index, length-signatories}

-- A new vote adds the owner.
signatories-perm :
    (signers : List Bool) (owners : List Pubkey) (i : ℕ) (a : Pubkey)
    → get_elem? signers i ≡ some false
    → get_elem? owners i ≡ some a
    → Permᴰ (signatories (set signers i true) owners) (a ∷ signatories signers owners)
unfolding signatories
signatories-perm [] owners i a no_vote at = cc
signatories-perm (v ∷ signers) [] i a no_vote at = cc
signatories-perm (true ∷ signers) (owner ∷ owners) zero a no_vote at = cc
signatories-perm (false ∷ signers) (owner ∷ owners) zero a no_vote at =
    Permᴰ.cons (ground arith) (Permᴰ.refl (signatories signers owners))
signatories-perm (true ∷ signers) (owner ∷ owners) (suc i) a no_vote at =
    Permᴰ.trans (Permᴰ.cons refl (signatories-perm signers owners i a no_vote at))
      (Permᴰ.swap refl refl)
signatories-perm (false ∷ signers) (owner ∷ owners) (suc i) a no_vote at =
    signatories-perm signers owners i a no_vote at

signatories-get_elem? :
    (signers : List Bool) (owners : List Pubkey) (i : ℕ) (a : Pubkey)
    → get_elem? signers i ≡ some true
    → get_elem? owners i ≡ some a
    → contains (signatories signers owners) a ≡ true
unfolding signatories
signatories-get_elem? [] owners i a vote at = cc
signatories-get_elem? (v ∷ signers) [] i a vote at = cc
signatories-get_elem? (true ∷ signers) (owner ∷ owners) zero a vote at = ground arith
signatories-get_elem? (false ∷ signers) (owner ∷ owners) zero a vote at = cc
signatories-get_elem? (true ∷ signers) (owner ∷ owners) (suc i) a vote at =
    ground (arith, signatories-get_elem? signers owners i a vote at)
signatories-get_elem? (false ∷ signers) (owner ∷ owners) (suc i) a vote at =
    signatories-get_elem? signers owners i a vote at

-- Among different owners, one who has not voted is no signatory.
signatories-none :
    (signers : List Bool) (owners : List Pubkey) (i : ℕ) (a : Pubkey)
    → IsUnique owners
    → get_elem? signers i ≡ some false
    → get_elem? owners i ≡ some a
    → contains (signatories signers owners) a ≡ false
signatories-none signers owners i a unique no_vote at =
    elim (Bool-cases (contains (signatories signers owners) a)) [
      | inr e ↦ e
      | inl e ↦
          let (j, found) = contains_index (signatories signers owners) a e in
          let (k, vote, at') = signatories-index signers owners j a found in
          let same : i ≡ k = unique i k a at at' in
          let vote' : get_elem? signers i ≡ some true = rw same vote in cc
    ]

-- The ballot that the two accounts stand for.
unfoldable pub ballot : Multisig → Transaction → Ballot
unfolding signatories
ballot m t = record {
  owners = keys m.owners;
  threshold = m.threshold;
  voters = keys (signatories t.signers m.owners);
}

-- There is a vote or there is none at an index.
vote-cases :
    (signers : List Bool) (i : ℕ)
    → i < length signers
    → (get_elem? signers i ≡ some true) ⊎ (get_elem? signers i ≡ some false)
vote-cases [] i h = absurd (omega arith)
vote-cases (true ∷ signers) zero h = inl refl
vote-cases (false ∷ signers) zero h = inr refl
vote-cases (v ∷ signers) (suc i) h = vote-cases signers i (omega arith)

pub with_vote-ballot :
    (m : Multisig) (t : Transaction) (i : ℕ) (a : Pubkey)
    → IsUnique m.owners
    → get_elem? m.owners i ≡ some a
    → i < length t.signers
    → approved a (ballot m t) ≡ some (ballot m (with_vote t i))
unfolding approved ballot holds with_key
with_vote-ballot m t i a unique at within =
    let owner = contains-get_elem? m.owners i a at in
    elim (vote-cases t.signers i within) [
      | inl vote ↦
          let voted = signatories-get_elem? t.signers m.owners i a vote at in
          rw (owner, voted, set-voted t.signers i vote) refl
      | inr no_vote ↦
          let new = signatories-none t.signers m.owners i a unique no_vote at in
          let added = signatories-perm t.signers m.owners i a no_vote at in
          rw (owner, new)
            (ap
              (λ voters.
                some (record { owners = keys m.owners; threshold = m.threshold; voters = voters }))
              (sym (Quot.sound added)))
    ]

-- A proposal's votes are the vote of the proposer.
get_elem?-replicate : (n i : ℕ) → i < n → get_elem? (replicate n false) i ≡ some false
get_elem?-replicate zero i h = absurd (omega arith)
get_elem?-replicate (suc n) zero h = refl
get_elem?-replicate (suc n) (suc i) h = get_elem?-replicate n i (omega arith)

signatories-replicate : (n : ℕ) (owners : List Pubkey) → signatories (replicate n false) owners ≡ []
unfolding signatories
signatories-replicate zero owners = refl
signatories-replicate (suc n) [] = refl
signatories-replicate (suc n) (owner ∷ owners) = signatories-replicate n owners

-- There is an item at an index below the length.
get_elem?-some :
    (xs : List Pubkey) (i : ℕ) → i < length xs → (a : Pubkey) × (get_elem? xs i ≡ some a)
get_elem?-some [] i h = absurd (omega arith)
get_elem?-some (x ∷ xs) zero h = (x, refl)
get_elem?-some (x ∷ xs) (suc i) h = get_elem?-some xs i (omega arith)

pub proposed-ballot :
    (key : Pubkey) (m : Multisig) (ix : ProposeTransactionInstruction) (i : ℕ) (a : Pubkey)
    → get_elem? m.owners i ≡ some a
    → opened (keys m.owners) m.threshold a ≡ some (ballot m (proposed key m ix i))
unfolding opened ballot holds with_key
proposed-ballot key m ix i a at =
    let n = length m.owners in
    let owner = contains-get_elem? m.owners i a at in
    let no_vote = get_elem?-replicate n i (get_elem?-lt m.owners i a at) in
    let added = signatories-perm (replicate n false) m.owners i a no_vote at in
    rw owner (
      ap
        (λ voters.
          some (record { owners = keys m.owners; threshold = m.threshold; voters = voters }))
        (ap (λ xs. keys (a ∷ xs)) (sym (signatories-replicate n m.owners))
          ∙ sym (Quot.sound added)))

-- With no more votes than owners, each vote is one of a voter.
pub length_voters :
    (m : Multisig) (t : Transaction)
    → length t.signers ≤ length m.owners
    → length (signatories t.signers m.owners) ≡ count_signed t.signers
length_voters m t enough =
    let all : (i : ℕ)
        → get_elem? t.signers i ≡ some true
        → (a : Pubkey) × (get_elem? m.owners i ≡ some a) =
      λ i vote. get_elem?-some m.owners i (omega (arith, get_elem?-lt t.signers i true vote)) in
    length-signatories t.signers m.owners all
