-- ===== src/Client/Dsl/Deduped.antt =====
-- What dropping the doubles of a list of accounts keeps (ts/multisigDsl.ts).
use text.Mathlib.TextEquality.{eq_iff}
use text.Mathlib.TextPositions.{eq_refl}
use multisig_native.Base.{
  HasItem, ℕ, zero, suc, ◌+◌, ◌≡◌, refl, ap, sym, ◌∙◌, Bool, true, List, [], ◌∷◌, Option, none,
  some, get_elem?, Bool-cases, Option-cases, inl, inr, arith, ◌≢◌, ◌↔◌, ==_refl,
}
use multisig_native.Client.Dsl.{
  MetaObject, Json, find_index, filter_indexed, is_index, same_text, deduped,
}

module _ {A : Type 0} where
  -- No item stands at two positions.
  abbrev pub NoneTwice : List A → Type 0
  NoneTwice xs = (a : A) (i j : ℕ) → get_elem? xs i ≡ some a → get_elem? xs j ≡ some a → i ≡ j

  -- The index that is found is that of an item that passes, and something is found if anything
  -- passes.
  find_index_sound :
      (p : A → Bool) (xs : List A) (i : ℕ)
      → find_index p xs ≡ some i
      → (a : A) × (get_elem? xs i ≡ some a) × (p a ≡ true)
  unfolding find_index
  find_index_sound p [] i h = cc
  find_index_sound p (x ∷ xs) i h = elim (Bool-cases (p x)) [
    | inl e ↦ let first : 0 ≡ i = ground arith in (x, rw (← first) refl, e)
    | inr e ↦ elim (Option-cases (find_index p xs)) [
      | inl n ↦ ground arith
      | inr (j, f) ↦
          let later : suc j ≡ i = ground arith in
          let (a, at, passes) = find_index_sound p xs j f in (a, rw (← later) at, passes)
    ]
  ]

  find_index_found :
      (p : A → Bool) (xs : List A) (a : A)
      → HasItem xs a
      → p a ≡ true
      → (i : ℕ) × (find_index p xs ≡ some i)
  unfolding find_index
  find_index_found p [] a (i, at) h = cc
  find_index_found p (x ∷ xs) a (zero, at) h = (0, ground arith)
  find_index_found p (x ∷ xs) a (suc i, at) h =
      let (j, f) = find_index_found p xs a (i, at) h in
      elim (Bool-cases (p x)) [ inl e ↦ (0, ground arith) | inr e ↦ (suc j, ground arith) ]

  filter_indexed-HasItem :
      (p : A → ℕ → Bool) (k : ℕ) (xs : List A) (a : A) (i : ℕ)
      → get_elem? xs i ≡ some a
      → p a (k + i) ≡ true
      → HasItem (filter_indexed p k xs) a
  unfolding filter_indexed
  filter_indexed-HasItem p k [] a i at h = cc
  filter_indexed-HasItem p k (x ∷ xs) a zero at h =
      let here : x ≡ a = ground arith in
      let start : k + 0 ≡ k = omega arith in let passes : p x k ≡ true = cc in (0, ground arith)
  filter_indexed-HasItem p k (x ∷ xs) a (suc i) at h =
      let later : suc k + i ≡ k + suc i = omega arith in
      let (j, found) = filter_indexed-HasItem p (suc k) xs a i at (rw later h) in
      elim (Bool-cases (p x k)) [ inl e ↦ (suc j, ground arith) | inr e ↦ (j, ground arith) ]

  -- The item stands in the list, and passes there; `k` is the index of the first item.
  abbrev Passes : (A → ℕ → Bool) → ℕ → List A → A → Type 0
  Passes p k xs a = (i : ℕ) × (get_elem? xs i ≡ some a) × (p a (k + i) ≡ true)

  cons-Passes :
      (p : A → ℕ → Bool) (k : ℕ) (x : A) (xs : List A) (a : A)
      → Passes p (suc k) xs a
      → Passes p k (x ∷ xs) a
  cons-Passes p k x xs a (i, at, passes) =
      let step : suc k + i ≡ k + suc i = omega arith in (suc i, at, rw (← step) passes)

  HasItem-filter_indexed :
      (p : A → ℕ → Bool) (k : ℕ) (xs : List A) (a : A) (j : ℕ)
      → get_elem? (filter_indexed p k xs) j ≡ some a
      → Passes p k xs a
  unfolding filter_indexed
  HasItem-filter_indexed p k [] a j at = cc
  HasItem-filter_indexed p k (x ∷ xs) a zero at = elim (Bool-cases (p x k)) [
    | inl e ↦
        let here : x ≡ a = ground arith in
        let start : k + 0 ≡ k = omega arith in (0, ground arith, cc)
    | inr e ↦ cons-Passes p k x xs a (HasItem-filter_indexed p (suc k) xs a zero (ground arith))
  ]
  HasItem-filter_indexed p k (x ∷ xs) a (suc j) at = elim (Bool-cases (p x k)) [
    | inl e ↦ cons-Passes p k x xs a (HasItem-filter_indexed p (suc k) xs a j (ground arith))
    | inr e ↦ cons-Passes p k x xs a (HasItem-filter_indexed p (suc k) xs a (suc j) (ground arith))
  ]

  -- An item that passes at one index only does not pass later.
  filter_indexed_once :
      (p : A → ℕ → Bool) (k : ℕ) (xs : List A) (a : A) (j : ℕ)
      → ((a : A) (i j : ℕ) → p a i ≡ true → p a j ≡ true → i ≡ j)
      → p a k ≡ true
      → get_elem? (filter_indexed p (suc k) xs) j ≢ some a
  filter_indexed_once p k xs a j once here at =
      let (i, there, passes) = HasItem-filter_indexed p (suc k) xs a j at in
      let same : k ≡ suc k + i = once a k (suc k + i) here passes in omega arith

  cons-NoneTwice :
      (x : A) (ys : List A)
      → ((j : ℕ) → get_elem? ys j ≢ some x)
      → NoneTwice ys
      → NoneTwice (x ∷ ys)
  cons-NoneTwice x ys fresh h a zero zero at at' = refl
  cons-NoneTwice x ys fresh h a zero (suc j) at at' = absurd (fresh j (at' ∙ sym at))
  cons-NoneTwice x ys fresh h a (suc i) zero at at' = absurd (fresh i (at ∙ sym at'))
  cons-NoneTwice x ys fresh h a (suc i) (suc j) at at' = ap suc (h a i j at at')

  filter_indexed-NoneTwice :
      (p : A → ℕ → Bool) (k : ℕ) (xs : List A)
      → ((a : A) (i j : ℕ) → p a i ≡ true → p a j ≡ true → i ≡ j)
      → NoneTwice (filter_indexed p k xs)
  unfolding filter_indexed
  filter_indexed-NoneTwice p k [] once = λ a i j at at'. cc
  filter_indexed-NoneTwice p k (x ∷ xs) once = elim (Bool-cases (p x k)) [
    | inl e ↦ rw e (
        cons-NoneTwice x (filter_indexed p (suc k) xs) (λ j. filter_indexed_once p k xs x j once e)
          (filter_indexed-NoneTwice p (suc k) xs once))
    | inr e ↦ rw e (filter_indexed-NoneTwice p (suc k) xs once)
  ]

module _ (json : Json) where
  is_index_once : (o : Option ℕ) (i j : ℕ) → is_index i o ≡ true → is_index j o ≡ true → i ≡ j
  is_index_once none i j h h' = cc
  is_index_once (some k) i j h h' = ground arith

  abbrev p : List MetaObject → MetaObject → ℕ → Bool
  p accounts value i = is_index i (find_index (same_text json value) accounts)

  kept :
      (accounts : List MetaObject) (a : MetaObject)
      → HasItem accounts a
      → HasItem (deduped json accounts) a
  unfolding deduped
  kept accounts a h =
      let same : same_text json a a ≡ true = eq_refl (json.stringify a) in
      let (i, found) = find_index_found (same_text json a) accounts a h same in
      let (b, at, passes) = find_index_sound (same_text json a) accounts i found in
      let text = (eq_iff (json.stringify b) (json.stringify a)).0 passes in
      let equal : b ≡ a = json.stringify_injective b a text in
      let here : get_elem? accounts i ≡ some a = at ∙ ap some equal in
      let start : 0 + i ≡ i = omega arith in
      let index : p accounts a (0 + i) ≡ true = rw (start, found) (==_refl i) in
      filter_indexed-HasItem (p accounts) 0 accounts a i here index

  -- Dropping the doubles of a list of account objects keeps exactly the objects of the list, each
  -- at one position only.
  pub deduped_lem :
      (accounts : List MetaObject)
      → ((a : MetaObject) → HasItem accounts a ↔ HasItem (deduped json accounts) a)
        × NoneTwice (deduped json accounts)
  unfolding deduped
  deduped_lem accounts = (
    λ a. (
      kept accounts a,
      λ h.
          let (i, at, passes) = HasItem-filter_indexed (p accounts) 0 accounts a h.0 h.1 in (i, at),
    ),
    filter_indexed-NoneTwice (p accounts) 0 accounts
        (λ a i j h h'. is_index_once (find_index (same_text json a) accounts) i j h h'),
  )
