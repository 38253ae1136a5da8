-- ===== src/Instructions/ExecuteTransaction/Validated.antt =====
-- What the `validate` of program/src/instructions/execute_transaction.rs has checked of the
-- accounts that it returns.
use multisig_native.Base.{
  leb, if◌then◌else◌, ℕ, ◌≤◌, ◌≡◌, ◌≢◌, subst, List, ◌∷◌, some, get_elem?, contains_index, true,
  ◌==◌, arith, ◌^◌, ◌%◌, contains-get_elem?,
}
use multisig_native.Errors.{
  err, custom, ok, bind_ok, assert_that, account_owned_by_wrong_program, multisig_error_into,
}
use multisig_native.Sdk.{Pubkey, AccountInfo, Store, Runtime}
use multisig_native.State.MultisigAccount.{Multisig}
use multisig_native.State.MultisigAccount
use multisig_native.State.TransactionAccount.{Transaction}
use multisig_native.State.TransactionAccount
use multisig_native.State.Saved.{HoldsMultisig, HoldsTransaction}
use multisig_native.Common.{validate_pda}
use multisig_native.Common.Checks.{IsSigner}
use multisig_native.Instructions.Accounts.{accounts5-ok, accounts5-cons}
use multisig_native.Instructions.ExecuteTransaction.{ValidatedAccounts, count_signed, validate}

module _ (rt : Runtime) (program_id : Pubkey) where
  -- All that is checked but the number of votes.
  pub record IsReady
      (multisig_account multisig_signer transaction_account refundee executor : AccountInfo)
      (multisig : Multisig) (transaction : Transaction) (s : Store) : Type 0 where
    pub multisig_owned : (s multisig_account.key).owner ≡ program_id
    pub transaction_owned : (s transaction_account.key).owner ≡ program_id
    pub holds_multisig : HoldsMultisig rt s multisig_account.key multisig
    pub holds_transaction : HoldsTransaction rt s transaction_account.key transaction
    pub signed : executor.is_signer ≡ true
    pub index : ℕ
    pub owner : get_elem? multisig.owners index ≡ some executor.key
    pub same_owners : transaction.owner_set_seqno ≡ multisig.owner_set_seqno
    pub signer : IsSigner rt multisig_signer multisig_account multisig.nonce program_id
    pub writable : transaction_account.is_writable ≡ true
    pub belongs : transaction.multisig ≡ multisig_account.key
    pub apart : refundee.key ≢ transaction_account.key
    pub refundee_writable : refundee.is_writable ≡ true

  pub record MayExecute
      (multisig_account multisig_signer transaction_account refundee executor : AccountInfo)
      (multisig : Multisig) (transaction : Transaction) (s : Store) : Type 0 where
    pub ready :
        IsReady multisig_account multisig_signer transaction_account refundee executor multisig
          transaction s
    pub approved : multisig.threshold ≤ count_signed transaction.signers

  -- What is returned are accounts that were given, and what they hold.
  pub record Validated (accounts : List AccountInfo) (s : Store) (v : ValidatedAccounts)
      : Type 0 where
    pub executor : AccountInfo
    pub rest : List AccountInfo
    pub given :
        accounts
        ≡ v.multisig_account ∷ v.multisig_signer ∷ v.transaction_account ∷ v.refundee ∷ executor
          ∷ rest
    pub checked :
        MayExecute v.multisig_account v.multisig_signer v.transaction_account v.refundee executor
          v.multisig v.transaction s

  pub validate-Validated :
      (accounts : List AccountInfo) (s : Store) (v : ValidatedAccounts)
      → validate rt program_id accounts s ≡ ok v
      → Validated accounts s v
  unfolding validate validate_pda
  validate-Validated accounts s v h =
      accounts5-ok rt accounts _ h λ ms signer tx refundee executor rest given h₀.
        bind_ok (assert_that (program_id == (s ms.key).owner) account_owned_by_wrong_program) _ h₀
          λ _ own h₁.
            bind_ok (assert_that (program_id == (s tx.key).owner) account_owned_by_wrong_program) _
              h₁
              λ _ own' h₂.
                bind_ok (MultisigAccount.checked_deserialize rt.borsh (s ms.key).bytes) _ h₂
                  λ multisig hm h₃.
                    bind_ok (TransactionAccount.checked_deserialize rt.borsh (s tx.key).bytes) _ h₃
                      λ transaction ht h₄.
                        let (i, at) = contains_index multisig.owners executor.key (ground arith) in
                        let v' : ValidatedAccounts = record {
                          multisig_account = ms;
                          multisig_signer = signer;
                          transaction_account = tx;
                          refundee = refundee;
                          multisig = multisig;
                          transaction = transaction;
                        } in
                        let e : v' ≡ v = ground arith in
                        let ready : IsReady ms signer tx refundee executor multisig transaction s =
                          record {
                            multisig_owned = ground arith;
                            transaction_owned = ground arith;
                            holds_multisig = hm;
                            holds_transaction = ht;
                            signed = ground arith;
                            index = i;
                            owner = at;
                            same_owners = ground arith;
                            signer = ground arith;
                            writable = ground arith;
                            belongs = ground arith;
                            apart = λ q. ground arith;
                            refundee_writable = ground arith;
                          } in
                        subst (Validated accounts s) e (record {
                          executor = executor;
                          rest = rest;
                          given = given;
                          checked = record { ready = ready; approved = ground arith };
                        })

  -- With everything else in order, the votes decide, of which the code counts the last eight bits.
  pub IsReady-validate :
      (ms signer tx refundee executor : AccountInfo) (rest : List AccountInfo) (multisig : Multisig)
      (transaction : Transaction) (s : Store)
      → IsReady ms signer tx refundee executor multisig transaction s
      → validate rt program_id (ms ∷ signer ∷ tx ∷ refundee ∷ executor ∷ rest) s ≡ (
          if leb multisig.threshold (count_signed transaction.signers % 2 ^ 8)
          then ok (record {
            multisig_account = ms;
            multisig_signer = signer;
            transaction_account = tx;
            refundee = refundee;
            multisig = multisig;
            transaction = transaction;
          })
          else err (custom 13))
  unfolding validate validate_pda
  IsReady-validate ms signer tx refundee executor rest multisig transaction s ready =
      let is_owner = contains-get_elem? multisig.owners ready.index executor.key ready.owner in
      simp
        (
          accounts5-cons rt ms signer tx refundee executor rest,
          ready.holds_multisig,
          ready.holds_transaction,
        )
        (ground (arith, is_owner))
