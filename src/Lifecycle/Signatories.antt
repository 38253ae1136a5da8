-- ===== src/Lifecycle/Signatories.antt =====
-- The owners who have signed a transaction that is executed, over all that can happen to the
-- accounts (program/src/instructions/execute_transaction.rs).
use multisig_native.Base.{
  ℕ, zero, suc, ◌≤◌, ◌<◌, ◌^◌, ◌≡◌, refl, sym, ◌∙◌, ap, subst, Bool, true, false, List, [], ◌∷◌,
  length, some, get_elem?, arith, All, All-get_elem?,
}
use multisig_native.Errors.{ok, ok-injective}
use multisig_native.Errors.Unique.{IsUnique}
use multisig_native.Sdk.{Pubkey, AccountInfo, Store, Runtime}
use multisig_native.State.MultisigAccount.{Multisig}
use multisig_native.State.Saved.{HoldsMultisig}
use multisig_native.Instructions.ExecuteTransaction.{count_signed, execute_transaction}
use multisig_native.Lifecycle.Runs.{Run}
use multisig_native.Lifecycle.Votes.{IsClear, HasVote, Cast, changes, StaysAside}
use multisig_native.Lifecycle.Validity.{HoldsValid}
use multisig_native.Lifecycle.Quorum.{execute_transaction-Quorum}

-- The owners whose votes are set.
unfoldable pub signatories : List Bool → List Pubkey → List Pubkey
signatories [] owners = []
signatories (vote ∷ signers) [] = []
signatories (true ∷ signers) (owner ∷ owners) = owner ∷ signatories signers owners
signatories (false ∷ signers) (owner ∷ owners) = signatories signers owners

pub signatories-index :
    (signers : List Bool) (owners : List Pubkey) (j : ℕ) (a : Pubkey)
    → get_elem? (signatories signers owners) j ≡ some a
    → (i : ℕ) × (get_elem? signers i ≡ some true) × (get_elem? owners i ≡ some a)
unfolding signatories
signatories-index [] owners j a h = cc
signatories-index (vote ∷ signers) [] j a h = cc
signatories-index (true ∷ signers) (owner ∷ owners) zero a h = (0, refl, h)
signatories-index (true ∷ signers) (owner ∷ owners) (suc j) a h =
    let (i, y, at) = signatories-index signers owners j a h in (suc i, y, at)
signatories-index (false ∷ signers) (owner ∷ owners) j a h =
    let (i, y, at) = signatories-index signers owners j a h in (suc i, y, at)

signatories-IsUnique :
    (signers : List Bool) (owners : List Pubkey)
    → IsUnique owners
    → IsUnique (signatories signers owners)
unfolding signatories
signatories-IsUnique [] owners u i j a p q = cc
signatories-IsUnique (vote ∷ signers) [] u i j a p q = cc
signatories-IsUnique (true ∷ signers) (owner ∷ owners) u zero zero a p q = refl
signatories-IsUnique (true ∷ signers) (owner ∷ owners) u zero (suc j) a p q =
    let (k, _, at) = signatories-index signers owners j a q in
    absurd (omega (arith, u 0 (suc k) a p at))
signatories-IsUnique (true ∷ signers) (owner ∷ owners) u (suc i) zero a p q =
    let (k, _, at) = signatories-index signers owners i a p in
    absurd (omega (arith, u 0 (suc k) a q at))
signatories-IsUnique (true ∷ signers) (owner ∷ owners) u (suc i) (suc j) a p q = ap suc (
    signatories-IsUnique signers owners (λ k l b x y. omega (arith, u (suc k) (suc l) b x y)) i j a
      p q)
signatories-IsUnique (false ∷ signers) (owner ∷ owners) u i j a p q =
    signatories-IsUnique signers owners (λ k l b x y. omega (arith, u (suc k) (suc l) b x y)) i j a
      p q

signatories_nil : (signers : List Bool) → signatories signers [] ≡ []
unfolding signatories
signatories_nil [] = refl
signatories_nil (vote ∷ signers) = refl

-- If each vote is at the index of an owner, there are as many.
pub length-signatories :
    (signers : List Bool) (owners : List Pubkey)
    → ((i : ℕ) → get_elem? signers i ≡ some true → (a : Pubkey) × (get_elem? owners i ≡ some a))
    → length (signatories signers owners) ≡ count_signed signers
unfolding signatories count_signed
length-signatories [] owners all = refl
length-signatories (true ∷ signers) [] all = cc (all 0 refl).1
length-signatories (false ∷ signers) [] all = omega (
  arith,
  length-signatories signers [] (λ i y. cc (all (suc i) y).1),
  ap (λ (xs : List Pubkey). length xs) (signatories_nil signers),
)
length-signatories (true ∷ signers) (owner ∷ owners) all =
    ap suc (length-signatories signers owners (λ i y. all (suc i) y))
length-signatories (false ∷ signers) (owner ∷ owners) all =
    length-signatories signers owners (λ i y. all (suc i) y)

-- Distinct owners, as many as the threshold asks for, have each cast a vote in the run.
pub record Signatories {rt : Runtime} {program_id : Pubkey} {s t : Store}
    (r : Run rt program_id s t) (tx key : Pubkey) (m : Multisig) (voters : List Pubkey)
    : Type 0 where
  pub held : HoldsMultisig rt t key m
  pub unique : IsUnique voters
  pub enough : m.threshold ≤ length voters
  pub cast :
      All
        (λ voter.
          (i : ℕ) × (get_elem? m.owners i ≡ some voter) × Cast r tx key m.owner_set_seqno i voter)
        voters

module _ (rt : Runtime) (program_id key : Pubkey) (clear : IsClear rt key) where
  -- If execute_transaction succeeds after a run in whose beginning its transaction account had no
  -- vote for the multisig's key, and the multisig is well formed, then at least threshold
  -- distinct keys, which are owners of the multisig, have each signed a call of the run that
  -- proposes or approves this transaction, as the owner at the same index of the multisig with
  -- the same sequence number. A run is calls whose values are of their types, executions with
  -- whatever run their instructions make, and steps of other programs that keep the runtime's
  -- rules. The multisig's key does not begin with a number of owners, as a u32, for which an
  -- account has room; the run approves, executes and cancels nothing that is stored under the
  -- multisig's own key, and changes owners fewer than 2^32 times.
  pub execute_transaction-Signatories :
      {s t u : Store} (r : Run rt program_id s t) (ms signer tx : AccountInfo)
      (rest : List AccountInfo)
      → ms.key ≡ key
      → HoldsValid rt t key
      → StaysAside r key
      → changes r < 2 ^ 32
      → ((q i : ℕ) → ¬ HasVote rt program_id s tx.key key q i)
      → execute_transaction rt program_id (ms ∷ signer ∷ tx ∷ rest) t ≡ ok u
      → (m : Multisig) × (voters : List Pubkey) × Signatories r tx.key key m voters
  execute_transaction-Signatories {t} r ms signer tx rest here valid aside few none_yet h =
      let (m, transaction, quorum) =
        execute_transaction-Quorum rt program_id key clear r ms signer tx rest here aside few
          none_yet h in
      let same : valid.multisig ≡ m = ok-injective (sym valid.holds ∙ quorum.held) in
      let unique = subst (λ (x : Multisig). IsUnique x.owners) same valid.valid.unique in
      let voters = signatories transaction.signers m.owners in
      let all =
        length-signatories transaction.signers m.owners
          (λ i y. let (a, at, _) = quorum.cast i y in (a, at)) in
      (
        m,
        voters,
        record {
          held = quorum.held;
          unique = signatories-IsUnique transaction.signers m.owners unique;
          enough = omega (arith, quorum.enough, all);
          cast = All-get_elem? _ voters λ j voter at.
              let (i, y, owner) = signatories-index transaction.signers m.owners j voter at in
              let (a, owner', cast) = quorum.cast i y in
              (
                i,
                owner,
                subst (λ k. Cast r tx.key key m.owner_set_seqno i k) {x = a} (cc (owner, owner'))
                    cast,
              );
        },
      )
