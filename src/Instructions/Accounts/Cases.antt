-- ===== src/Instructions/Accounts/Cases.antt =====
-- An instruction that is given too few accounts, and one that is given enough: its `next_account_info`
-- calls on both branches.
use multisig_native.Instructions.Accounts.{
  accounts2, accounts3, accounts4, accounts5, accounts2-cons, accounts3-cons, accounts4-cons,
  accounts5-cons,
}
use multisig_native.Base.{length, ◌<◌, arith, ◌≡◌, refl, List, [], ◌∷◌}
use multisig_native.Errors.{err, not_enough_account_keys, Result}
use multisig_native.Sdk.{AccountInfo, Runtime}

-- Without all of its accounts an instruction stops before its body.
module _ (rt : Runtime) {A : Type 0} where
  pub accounts2_short :
      (accounts : List AccountInfo) (k : AccountInfo → AccountInfo → Result A)
      → length accounts < 2
      → accounts2 rt accounts k ≡ err not_enough_account_keys
  unfolding accounts2
  accounts2_short [] k h = simp rt.next_account_info-nil
  accounts2_short (a ∷ []) k h = simp (rt.next_account_info-cons, rt.next_account_info-nil)
  accounts2_short (a ∷ b ∷ rest) k h = absurd (omega arith)

  pub accounts3_short :
      (accounts : List AccountInfo) (k : AccountInfo → AccountInfo → AccountInfo → Result A)
      → length accounts < 3
      → accounts3 rt accounts k ≡ err not_enough_account_keys
  unfolding accounts3
  accounts3_short [] k h = simp rt.next_account_info-nil
  accounts3_short (a ∷ []) k h = simp (rt.next_account_info-cons, rt.next_account_info-nil)
  accounts3_short (a ∷ b ∷ []) k h = simp (rt.next_account_info-cons, rt.next_account_info-nil)
  accounts3_short (a ∷ b ∷ c ∷ rest) k h = absurd (omega arith)

  pub accounts4_short :
      (accounts : List AccountInfo)
      (k : AccountInfo → AccountInfo → AccountInfo → AccountInfo → Result A)
      → length accounts < 4
      → accounts4 rt accounts k ≡ err not_enough_account_keys
  unfolding accounts4
  accounts4_short [] k h = simp rt.next_account_info-nil
  accounts4_short (a ∷ []) k h = simp (rt.next_account_info-cons, rt.next_account_info-nil)
  accounts4_short (a ∷ b ∷ []) k h = simp (rt.next_account_info-cons, rt.next_account_info-nil)
  accounts4_short (a ∷ b ∷ c ∷ []) k h = simp (rt.next_account_info-cons, rt.next_account_info-nil)
  accounts4_short (a ∷ b ∷ c ∷ d ∷ rest) k h = absurd (omega arith)

  pub accounts5_short :
      (accounts : List AccountInfo)
      (k : AccountInfo → AccountInfo → AccountInfo → AccountInfo → AccountInfo → Result A)
      → length accounts < 5
      → accounts5 rt accounts k ≡ err not_enough_account_keys
  unfolding accounts5
  accounts5_short [] k h = simp rt.next_account_info-nil
  accounts5_short (a ∷ []) k h = simp (rt.next_account_info-cons, rt.next_account_info-nil)
  accounts5_short (a ∷ b ∷ []) k h = simp (rt.next_account_info-cons, rt.next_account_info-nil)
  accounts5_short (a ∷ b ∷ c ∷ []) k h = simp (rt.next_account_info-cons, rt.next_account_info-nil)
  accounts5_short (a ∷ b ∷ c ∷ d ∷ []) k h =
      simp (rt.next_account_info-cons, rt.next_account_info-nil)
  accounts5_short (a ∷ b ∷ c ∷ d ∷ e ∷ rest) k h = absurd (omega arith)

-- Whatever an instruction returns, it was given its accounts or stopped before its body.
module _ (rt : Runtime) {A : Type 0} (P : Result A → Type 0) where
  pub accounts2-cases :
      (accounts : List AccountInfo) (k : AccountInfo → AccountInfo → Result A)
      → (length accounts < 2 → P (err not_enough_account_keys))
      → ((a b : AccountInfo) (rest : List AccountInfo) → accounts ≡ a ∷ b ∷ rest → P (k a b))
      → P (accounts2 rt accounts k)
  accounts2-cases [] k short go = rw (accounts2_short rt [] k (omega arith)) (short (omega arith))
  accounts2-cases (a ∷ []) k short go =
      rw (accounts2_short rt (a ∷ []) k (omega arith)) (short (omega arith))
  accounts2-cases (a ∷ b ∷ rest) k short go = rw (accounts2-cons rt a b rest k) (go a b rest refl)

  pub accounts3-cases :
      (accounts : List AccountInfo) (k : AccountInfo → AccountInfo → AccountInfo → Result A)
      → (length accounts < 3 → P (err not_enough_account_keys))
      → ((a b c : AccountInfo) (rest : List AccountInfo)
          → accounts ≡ a ∷ b ∷ c ∷ rest
          → P (k a b c))
      → P (accounts3 rt accounts k)
  accounts3-cases [] k short go = rw (accounts3_short rt [] k (omega arith)) (short (omega arith))
  accounts3-cases (a ∷ []) k short go =
      rw (accounts3_short rt (a ∷ []) k (omega arith)) (short (omega arith))
  accounts3-cases (a ∷ b ∷ []) k short go =
      rw (accounts3_short rt (a ∷ b ∷ []) k (omega arith)) (short (omega arith))
  accounts3-cases (a ∷ b ∷ c ∷ rest) k short go =
      rw (accounts3-cons rt a b c rest k) (go a b c rest refl)

  pub accounts4-cases :
      (accounts : List AccountInfo)
      (k : AccountInfo → AccountInfo → AccountInfo → AccountInfo → Result A)
      → (length accounts < 4 → P (err not_enough_account_keys))
      → ((a b c d : AccountInfo) (rest : List AccountInfo)
          → accounts ≡ a ∷ b ∷ c ∷ d ∷ rest
          → P (k a b c d))
      → P (accounts4 rt accounts k)
  accounts4-cases [] k short go = rw (accounts4_short rt [] k (omega arith)) (short (omega arith))
  accounts4-cases (a ∷ []) k short go =
      rw (accounts4_short rt (a ∷ []) k (omega arith)) (short (omega arith))
  accounts4-cases (a ∷ b ∷ []) k short go =
      rw (accounts4_short rt (a ∷ b ∷ []) k (omega arith)) (short (omega arith))
  accounts4-cases (a ∷ b ∷ c ∷ []) k short go =
      rw (accounts4_short rt (a ∷ b ∷ c ∷ []) k (omega arith)) (short (omega arith))
  accounts4-cases (a ∷ b ∷ c ∷ d ∷ rest) k short go =
      rw (accounts4-cons rt a b c d rest k) (go a b c d rest refl)

  pub accounts5-cases :
      (accounts : List AccountInfo)
      (k : AccountInfo → AccountInfo → AccountInfo → AccountInfo → AccountInfo → Result A)
      → (length accounts < 5 → P (err not_enough_account_keys))
      → ((a b c d e : AccountInfo) (rest : List AccountInfo)
          → accounts ≡ a ∷ b ∷ c ∷ d ∷ e ∷ rest
          → P (k a b c d e))
      → P (accounts5 rt accounts k)
  accounts5-cases [] k short go = rw (accounts5_short rt [] k (omega arith)) (short (omega arith))
  accounts5-cases (a ∷ []) k short go =
      rw (accounts5_short rt (a ∷ []) k (omega arith)) (short (omega arith))
  accounts5-cases (a ∷ b ∷ []) k short go =
      rw (accounts5_short rt (a ∷ b ∷ []) k (omega arith)) (short (omega arith))
  accounts5-cases (a ∷ b ∷ c ∷ []) k short go =
      rw (accounts5_short rt (a ∷ b ∷ c ∷ []) k (omega arith)) (short (omega arith))
  accounts5-cases (a ∷ b ∷ c ∷ d ∷ []) k short go =
      rw (accounts5_short rt (a ∷ b ∷ c ∷ d ∷ []) k (omega arith)) (short (omega arith))
  accounts5-cases (a ∷ b ∷ c ∷ d ∷ e ∷ rest) k short go =
      rw (accounts5-cons rt a b c d e rest k) (go a b c d e rest refl)
