-- ===== src/Instructions/ExecuteTransaction/Approvals.antt =====
-- The votes that `execute_transaction` counts
-- (program/src/instructions/execute_transaction.rs).
use multisig_native.Base.{
  ℕ, zero, suc, ◌+◌, ◌≤◌, ◌<◌, ◌≡◌, refl, Bool, true, false, List, [], ◌∷◌, length, replicate, set,
  get_elem?, some, arith,
}
use multisig_native.Instructions.ExecuteTransaction.{count_signed}

pub count_signed-le-length : (signers : List Bool) → count_signed signers ≤ length signers
unfolding count_signed
count_signed-le-length [] = omega arith
count_signed-le-length (true ∷ signers) = omega (arith, count_signed-le-length signers)
count_signed-le-length (false ∷ signers) = omega (arith, count_signed-le-length signers)

count_signed-replicate : (n : ℕ) → count_signed (replicate n false) ≡ 0
unfolding count_signed
count_signed-replicate zero = refl
count_signed-replicate (suc n) = count_signed-replicate n

-- Of the votes of a newly proposed transaction, all unset but the one of the proposer's index,
-- exactly one counts.
pub count_signed-first_vote : (n i : ℕ) → i < n → count_signed (set (replicate n false) i true) ≡ 1
unfolding count_signed
count_signed-first_vote zero i h = absurd (omega arith)
count_signed-first_vote (suc n) zero h = omega (arith, count_signed-replicate n)
count_signed-first_vote (suc n) (suc i) h = count_signed-first_vote n i (omega arith)

-- A vote counts once: setting a vote that was not set raises the number of votes by one.
pub count_signed-set_new :
    (signers : List Bool) (i : ℕ)
    → get_elem? signers i ≡ some false
    → count_signed (set signers i true) ≡ count_signed signers + 1
unfolding count_signed
count_signed-set_new [] i h = cc
count_signed-set_new (b ∷ signers) zero h = ground arith
count_signed-set_new (b ∷ signers) (suc i) h = ground (arith, count_signed-set_new signers i h)

-- Voting again changes nothing.
pub set-voted :
    (signers : List Bool) (i : ℕ) → get_elem? signers i ≡ some true → set signers i true ≡ signers
set-voted [] i h = refl
set-voted (b ∷ signers) zero h = ground arith
set-voted (b ∷ signers) (suc i) h = ground (arith, set-voted signers i h)
