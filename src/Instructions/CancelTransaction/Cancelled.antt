-- ===== src/Instructions/CancelTransaction/Cancelled.antt =====
-- What a successful `cancel_transaction` (program/src/instructions/cancel_transaction.rs) has
-- checked and done.
use multisig_native.Base.{
  ℕ, ◌≤◌, ◌≡◌, ◌≢◌, List, ◌∷◌, some, get_elem?, contains_index, true, ◌==◌, arith,
  contains-get_elem?, ◌+◌, ◌<◌, ◌^◌,
}
use multisig_native.Errors.{
  ok, bind_ok, assert_that, account_owned_by_wrong_program, multisig_error_into,
}
use multisig_native.Sdk.{Pubkey, AccountInfo, Store, Runtime}
use multisig_native.State.MultisigAccount.{Multisig}
use multisig_native.State.MultisigAccount
use multisig_native.State.TransactionAccount.{Transaction}
use multisig_native.State.TransactionAccount
use multisig_native.State.Saved.{HoldsMultisig, HoldsTransaction}
use multisig_native.Common.Close.{Closed, close_account-Closed, close_account-fits_lem}
use multisig_native.Instructions.Accounts.{accounts4-ok, accounts4-cons}
use multisig_native.Instructions.CancelTransaction.{validate, cancel_transaction}

module _ (rt : Runtime) (program_id : Pubkey) where
  -- What `validate` asks for.
  pub record MayCancel (multisig_account transaction_account refundee executor : AccountInfo)
      (s : Store) : Type 0 where
    pub multisig_owned : (s multisig_account.key).owner ≡ program_id
    pub transaction_owned : (s transaction_account.key).owner ≡ program_id
    pub multisig : Multisig
    pub transaction : Transaction
    pub holds_multisig : HoldsMultisig rt s multisig_account.key multisig
    pub holds_transaction : HoldsTransaction rt s transaction_account.key transaction
    pub signed : executor.is_signer ≡ true
    pub index : ℕ
    pub owner : get_elem? multisig.owners index ≡ some executor.key
    pub not_newer : transaction.owner_set_seqno ≤ multisig.owner_set_seqno
    pub belongs : transaction.multisig ≡ multisig_account.key
    pub writable : transaction_account.is_writable ≡ true
    pub apart : refundee.key ≢ transaction_account.key
    pub refundee_writable : refundee.is_writable ≡ true

  validate-MayCancel :
      (ms tx refundee executor : AccountInfo) (s : Store)
      → validate rt program_id ms tx refundee executor s ≡ ok tt
      → MayCancel ms tx refundee executor s
  unfolding validate
  validate-MayCancel ms tx refundee executor s h =
      bind_ok (assert_that (program_id == (s ms.key).owner) account_owned_by_wrong_program) _ h
        λ _ own h₁.
          bind_ok (assert_that (program_id == (s tx.key).owner) account_owned_by_wrong_program) _ h₁
            λ _ own' h₂.
              bind_ok (MultisigAccount.checked_deserialize rt.borsh (s ms.key).bytes) _ h₂
                λ multisig hm h₃.
                  bind_ok (TransactionAccount.checked_deserialize rt.borsh (s tx.key).bytes) _ h₃
                    λ transaction ht h₄.
                      let (i, at) = contains_index multisig.owners executor.key (ground arith) in
                      record {
                        multisig_owned = ground arith;
                        transaction_owned = ground arith;
                        multisig = multisig;
                        transaction = transaction;
                        holds_multisig = hm;
                        holds_transaction = ht;
                        signed = ground arith;
                        index = i;
                        owner = at;
                        not_newer = ground arith;
                        belongs = ground arith;
                        writable = ground arith;
                        apart = λ e. ground arith;
                        refundee_writable = ground arith;
                      }

  -- What a successful call has checked and done.
  pub record Cancelled (accounts : List AccountInfo) (s t : Store) : Type 0 where
    pub multisig_account : AccountInfo
    pub transaction_account : AccountInfo
    pub refundee : AccountInfo
    pub executor : AccountInfo
    pub rest : List AccountInfo
    pub given : accounts ≡ multisig_account ∷ transaction_account ∷ refundee ∷ executor ∷ rest
    pub checked : MayCancel multisig_account transaction_account refundee executor s
    pub closed : Closed rt transaction_account refundee s t

  -- If cancel_transaction succeeds, then the multisig and the transaction are the program's, the
  -- executor has signed and is an owner, the transaction is of this multisig and its sequence
  -- number is at most the multisig's; afterwards the transaction account is closed into the
  -- refundee, and no other account has changed.
  pub cancel_transaction-Cancelled :
      (accounts : List AccountInfo) (s t : Store)
      → cancel_transaction rt program_id accounts s ≡ ok t
      → Cancelled accounts s t
  unfolding cancel_transaction
  cancel_transaction-Cancelled accounts s t h =
      accounts4-ok rt accounts _ h λ ms tx refundee executor rest given h₀.
        bind_ok (validate rt program_id ms tx refundee executor s) _ h₀ λ _ valid h₁.
          let may = validate-MayCancel ms tx refundee executor s valid in
          record {
            multisig_account = ms;
            transaction_account = tx;
            refundee = refundee;
            executor = executor;
            rest = rest;
            given = given;
            checked = may;
            closed = close_account-Closed rt tx refundee s t may.apart h₁;
          }

  MayCancel-validate :
      (ms tx refundee executor : AccountInfo) (s : Store)
      → MayCancel ms tx refundee executor s
      → validate rt program_id ms tx refundee executor s ≡ ok tt
  unfolding validate
  MayCancel-validate ms tx refundee executor s may =
      let is_owner = contains-get_elem? may.multisig.owners may.index executor.key may.owner in
      simp (may.holds_multisig, may.holds_transaction) (ground (arith, is_owner))

  -- cancel_transaction succeeds and closes the transaction account into the refundee, also for a
  -- transaction that is older than the last change of owners, if the accounts pass the checks and
  -- the lamports of both add up to a u64.
  pub cancel_transaction_succeeds :
      (ms tx refundee executor : AccountInfo) (rest : List AccountInfo) (s : Store)
      → MayCancel ms tx refundee executor s
      → (s refundee.key).lamports + (s tx.key).lamports < 2 ^ 64
      → (t : Store) × (cancel_transaction rt program_id (ms ∷ tx ∷ refundee ∷ executor ∷ rest) s
          ≡ ok t)
        × Closed rt tx refundee s t
  unfolding cancel_transaction
  cancel_transaction_succeeds ms tx refundee executor rest s may refund =
      let (t, closes, done) = close_account-fits_lem rt tx refundee s may.apart refund in
      (
        t,
        simp
            (
              accounts4-cons rt ms tx refundee executor rest,
              MayCancel-validate ms tx refundee executor s may,
            )
            closes,
        done,
      )
