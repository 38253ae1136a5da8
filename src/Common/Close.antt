-- ===== src/Common/Close.antt =====
-- What `close_account` of program/src/instructions/common.rs does to the accounts.
use multisig_native.Base.{
  ℕ, ◌+◌, ◌^◌, ◌≤◌, ◌<◌, ◌≡◌, refl, sym, ◌≢◌, [], arith, lt→ltb, subst, ◌⊎◌, inl, inr,
}
use native.Mathlib.Decide.{dec_lt, ℕ_discrete}
use multisig_native.Errors.{ok, err, custom, account_close_failure, from_multisig_error}
use multisig_native.Sdk.{AccountInfo, Store, put, put_self, put_ne, Runtime}
use multisig_native.Common.{close_account}

-- The store that a close leaves: the account is empty and belongs to the system program, the
-- refundee has its lamports, and no other account has changed.
pub record Closed (rt : Runtime) (account refundee : AccountInfo) (s t : Store) : Type 0 where
  pub emptied : t account.key ≡ record { lamports = 0; bytes = []; owner = rt.system_program }
  pub refunded :
      t refundee.key
      ≡ record (s refundee.key) { lamports = (s refundee.key).lamports + (s account.key).lamports }
  pub others : (k : ℕ) → k ≢ account.key → k ≢ refundee.key → t k ≡ s k

-- Any other account keeps its data and its owner, the refundee's too.
pub Closed-same :
    {rt : Runtime} {account refundee : AccountInfo} {s t : Store} (k : ℕ)
    → k ≢ account.key
    → Closed rt account refundee s t
    → ((t k).bytes ≡ (s k).bytes) × ((t k).owner ≡ (s k).owner)
Closed-same {refundee} k ne c = elim (ℕ_discrete k refundee.key) [
  | no ne' ↦ rw (c.others k ne ne') (refl, refl)
  | yes e ↦ rw (e, c.refunded) (refl, refl)
]

module _ (rt : Runtime) (account refundee : AccountInfo) (s : Store)
    (apart : refundee.key ≢ account.key) where
  abbrev paid : Store
  paid =
      put (put s account.key (record (s account.key) { lamports = 0 })) refundee.key
        (record (s refundee.key) {
          lamports = (s refundee.key).lamports + (s account.key).lamports;
        })

  abbrev closed : Store
  closed =
      put (put paid account.key (record (paid account.key) { bytes = [] })) account.key
        (record { lamports = 0; bytes = []; owner = rt.system_program })

  close_account-fits :
      (s refundee.key).lamports + (s account.key).lamports < 2 ^ 64
      → close_account rt account refundee s ≡ ok closed
  unfolding close_account
  close_account-fits fits =
      let ne : account.key ≢ refundee.key = λ e. apart (sym e) in
      simp (
        put_ne s account.key refundee.key _ ne,
        lt→ltb _ _ fits,
        rt.resize_zero,
        rt.assign_lem,
        put_self,
        put_ne _ refundee.key account.key _ apart,
      )

  close_account-overflow :
      2 ^ 64 ≤ (s refundee.key).lamports + (s account.key).lamports
      → close_account rt account refundee s ≡ err (from_multisig_error account_close_failure)
  unfolding close_account
  close_account-overflow full =
      let ne : account.key ≢ refundee.key = λ e. apart (sym e) in
      simp (put_ne s account.key refundee.key _ ne) (ground arith)

  closed-Closed : Closed rt account refundee s closed
  unfolding put
  closed-Closed = record {
    emptied = ground arith;
    refunded = ground arith;
    others = λ k a r. ground arith;
  }

-- Closing an account into another one: if the lamports of both add up to a u64, the call
-- succeeds, the account is emptied and handed to the system program, the refundee has the sum,
-- and no other account changes; otherwise the call fails with AccountCloseFailure.
pub close_account_lem :
    (rt : Runtime) (account refundee : AccountInfo) (s : Store)
    → refundee.key ≢ account.key
    → (((s refundee.key).lamports + (s account.key).lamports < 2 ^ 64)
        × ((t : Store) × (close_account rt account refundee s ≡ ok t)
            × Closed rt account refundee s t))
      ⊎ ((2 ^ 64 ≤ (s refundee.key).lamports + (s account.key).lamports)
          × (close_account rt account refundee s ≡ err (custom 14)))
close_account_lem rt account refundee s apart =
    elim (dec_lt ((s refundee.key).lamports + (s account.key).lamports) (2 ^ 64)) [
      | yes fits ↦
          let t = closed rt account refundee s apart in
          inl (
            fits,
            (
              t,
              close_account-fits rt account refundee s apart fits,
              closed-Closed rt account refundee s apart,
            ),
          )
      | no full ↦
          let over : 2 ^ 64 ≤ (s refundee.key).lamports + (s account.key).lamports = omega arith in
          inr (over, close_account-overflow rt account refundee s apart over)
    ]

-- A close that succeeds did all of it.
pub close_account-Closed :
    (rt : Runtime) (account refundee : AccountInfo) (s t : Store)
    → refundee.key ≢ account.key
    → close_account rt account refundee s ≡ ok t
    → Closed rt account refundee s t
close_account-Closed rt account refundee s t apart h =
    elim (close_account_lem rt account refundee s apart) [
      | inl (_, (u, e, c)) ↦ subst (Closed rt account refundee s) (cc) c
      | inr (_, e) ↦ cc
    ]

pub close_account-fits_lem :
    (rt : Runtime) (account refundee : AccountInfo) (s : Store)
    → refundee.key ≢ account.key
    → (s refundee.key).lamports + (s account.key).lamports < 2 ^ 64
    → (t : Store) × (close_account rt account refundee s ≡ ok t) × Closed rt account refundee s t
close_account-fits_lem rt account refundee s apart fits = (
  closed rt account refundee s apart,
  close_account-fits rt account refundee s apart fits,
  closed-Closed rt account refundee s apart,
)
