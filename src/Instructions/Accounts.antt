-- ===== src/Instructions/Accounts.antt =====
-- How an instruction takes its accounts off the list that it is given: a `next_account_info`
-- for each, before anything else, and then its body.
pub mod Cases
use multisig_native.Base.{length, ◌<◌, arith, ◌≡◌, refl, List, [], ◌∷◌}
use multisig_native.Errors.{err, not_enough_account_keys, Result, ok, ◌>>=◌}
use multisig_native.Sdk.{AccountInfo, Runtime}

module _ (rt : Runtime) {A : Type 0} where
  unfoldable pub accounts2 : List AccountInfo → (AccountInfo → AccountInfo → Result A) → Result A
  accounts2 accounts body = do
    (a, accounts_iter) ← rt.next_account_info accounts
    (b, accounts_iter) ← rt.next_account_info accounts_iter
    body a b

  unfoldable pub accounts3 :
      List AccountInfo → (AccountInfo → AccountInfo → AccountInfo → Result A) → Result A
  accounts3 accounts body = do
    (a, accounts_iter) ← rt.next_account_info accounts
    (b, accounts_iter) ← rt.next_account_info accounts_iter
    (c, accounts_iter) ← rt.next_account_info accounts_iter
    body a b c

  unfoldable pub accounts4 :
      List AccountInfo
      → (AccountInfo → AccountInfo → AccountInfo → AccountInfo → Result A)
      → Result A
  accounts4 accounts body = do
    (a, accounts_iter) ← rt.next_account_info accounts
    (b, accounts_iter) ← rt.next_account_info accounts_iter
    (c, accounts_iter) ← rt.next_account_info accounts_iter
    (d, accounts_iter) ← rt.next_account_info accounts_iter
    body a b c d

  unfoldable pub accounts5 :
      List AccountInfo
      → (AccountInfo → AccountInfo → AccountInfo → AccountInfo → AccountInfo → Result A)
      → Result A
  accounts5 accounts body = do
    (a, accounts_iter) ← rt.next_account_info accounts
    (b, accounts_iter) ← rt.next_account_info accounts_iter
    (c, accounts_iter) ← rt.next_account_info accounts_iter
    (d, accounts_iter) ← rt.next_account_info accounts_iter
    (e, accounts_iter) ← rt.next_account_info accounts_iter
    body a b c d e

module _ (rt : Runtime) {A : Type 0} where
  -- An instruction that goes on has been given another account.
  next-ok :
      (accounts : List AccountInfo) (k : AccountInfo × List AccountInfo → Result A) {r : A}
      → (rt.next_account_info accounts >>= k) ≡ ok r
      → (a : AccountInfo) × (rest : List AccountInfo) × (accounts ≡ a ∷ rest) × (k (a, rest) ≡ ok r)
  next-ok [] k h = cc rt.next_account_info-nil
  next-ok (a ∷ rest) k h = (a, rest, refl, rw rt.next_account_info-cons at h)

  pub accounts2-cons :
      (a b : AccountInfo) (rest : List AccountInfo) (k : AccountInfo → AccountInfo → Result A)
      → accounts2 rt (a ∷ b ∷ rest) k ≡ k a b
  unfolding accounts2
  accounts2-cons a b rest k = simp rt.next_account_info-cons

  pub accounts3-cons :
      (a b c : AccountInfo) (rest : List AccountInfo)
      (k : AccountInfo → AccountInfo → AccountInfo → Result A)
      → accounts3 rt (a ∷ b ∷ c ∷ rest) k ≡ k a b c
  unfolding accounts3
  accounts3-cons a b c rest k = simp rt.next_account_info-cons

  pub accounts4-cons :
      (a b c d : AccountInfo) (rest : List AccountInfo)
      (k : AccountInfo → AccountInfo → AccountInfo → AccountInfo → Result A)
      → accounts4 rt (a ∷ b ∷ c ∷ d ∷ rest) k ≡ k a b c d
  unfolding accounts4
  accounts4-cons a b c d rest k = simp rt.next_account_info-cons

  pub accounts5-cons :
      (a b c d e : AccountInfo) (rest : List AccountInfo)
      (k : AccountInfo → AccountInfo → AccountInfo → AccountInfo → AccountInfo → Result A)
      → accounts5 rt (a ∷ b ∷ c ∷ d ∷ e ∷ rest) k ≡ k a b c d e
  unfolding accounts5
  accounts5-cons a b c d e rest k = simp rt.next_account_info-cons

-- An instruction that goes on has been given its accounts.
module _ {ℓ} (rt : Runtime) {A : Type 0} {P : Type ℓ} where
  pub accounts2-ok :
      (accounts : List AccountInfo) (k : AccountInfo → AccountInfo → Result A) {t : A}
      → accounts2 rt accounts k ≡ ok t
      → ((a b : AccountInfo) (rest : List AccountInfo) → accounts ≡ a ∷ b ∷ rest → k a b ≡ ok t → P)
      → P
  unfolding accounts2
  accounts2-ok accounts k h go =
      let (a, rest1, e1, h1) = next-ok rt accounts _ h in
      let (b, rest2, e2, h2) = next-ok rt rest1 _ h1 in go a b rest2 (cc) h2

  pub accounts3-ok :
      (accounts : List AccountInfo) (k : AccountInfo → AccountInfo → AccountInfo → Result A) {t : A}
      → accounts3 rt accounts k ≡ ok t
      → ((a b c : AccountInfo) (rest : List AccountInfo)
          → accounts ≡ a ∷ b ∷ c ∷ rest
          → k a b c ≡ ok t
          → P)
      → P
  unfolding accounts3
  accounts3-ok accounts k h go =
      let (a, rest1, e1, h1) = next-ok rt accounts _ h in
      let (b, rest2, e2, h2) = next-ok rt rest1 _ h1 in
      let (c, rest3, e3, h3) = next-ok rt rest2 _ h2 in go a b c rest3 (cc) h3

  pub accounts4-ok :
      (accounts : List AccountInfo)
      (k : AccountInfo → AccountInfo → AccountInfo → AccountInfo → Result A) {t : A}
      → accounts4 rt accounts k ≡ ok t
      → ((a b c d : AccountInfo) (rest : List AccountInfo)
          → accounts ≡ a ∷ b ∷ c ∷ d ∷ rest
          → k a b c d ≡ ok t
          → P)
      → P
  unfolding accounts4
  accounts4-ok accounts k h go =
      let (a, rest1, e1, h1) = next-ok rt accounts _ h in
      let (b, rest2, e2, h2) = next-ok rt rest1 _ h1 in
      let (c, rest3, e3, h3) = next-ok rt rest2 _ h2 in
      let (d, rest4, e4, h4) = next-ok rt rest3 _ h3 in go a b c d rest4 (cc) h4

  pub accounts5-ok :
      (accounts : List AccountInfo)
      (k : AccountInfo → AccountInfo → AccountInfo → AccountInfo → AccountInfo → Result A) {t : A}
      → accounts5 rt accounts k ≡ ok t
      → ((a b c d e : AccountInfo) (rest : List AccountInfo)
          → accounts ≡ a ∷ b ∷ c ∷ d ∷ e ∷ rest
          → k a b c d e ≡ ok t
          → P)
      → P
  unfolding accounts5
  accounts5-ok accounts k h go =
      let (a, rest1, e1, h1) = next-ok rt accounts _ h in
      let (b, rest2, e2, h2) = next-ok rt rest1 _ h1 in
      let (c, rest3, e3, h3) = next-ok rt rest2 _ h2 in
      let (d, rest4, e4, h4) = next-ok rt rest3 _ h3 in
      let (e, rest5, e5, h5) = next-ok rt rest4 _ h4 in go a b c d e rest5 (cc) h5
