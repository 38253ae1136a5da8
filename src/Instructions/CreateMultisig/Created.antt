-- ===== src/Instructions/CreateMultisig/Created.antt =====
-- What a successful `create_multisig` (program/src/instructions/create_multisig.rs) has checked
-- and made, and when it succeeds.
use multisig_native.Base.{
  ℕ, ◌%◌, ◌^◌, ◌≤◌, ◌<◌, ◌≡◌, sym, ◌∙◌, ap, subst, ◌≢◌, List, [], ◌∷◌, length, inl, inr, arith,
}
use multisig_native.Errors.{Result, ok, bind_ok, ok-injective}
use multisig_native.Errors.Unique.{IsUnique, assert_unique_owners_iff, assert_unique_owners-cases}
use multisig_native.Sdk.{Pubkey, AccountInfo, Account, Store, Runtime, put_self, put_ne}
use multisig_native.State.MultisigAccount.{Multisig, IsMultisig, len}
use multisig_native.State.Stored.{multisig_bytes}
use multisig_native.Common.{validate_pda}
use multisig_native.Common.Checks.{IsSigner}
use multisig_native.State.Saved.{
  HoldsMultisig, with_bytes, with_bytes-HoldsMultisig, store_multisig-exact,
}
use multisig_native.Common.Valid.{IsValid}
use multisig_native.Instructions.Accounts.{accounts4-ok, accounts4-cons}
use multisig_native.Instructions.CreateMultisig.{
  CreateMultisigInstruction, multisig_data, validate, create_multisig,
}

module _ (rt : Runtime) (program_id : Pubkey) where
  -- What `validate` asks for.
  pub record MayCreate (multisig multisig_signer system_program : AccountInfo)
      (ix : CreateMultisigInstruction) : Type 0 where
    pub right_program : system_program.key ≡ rt.system_program
    pub unique : IsUnique ix.owners
    pub positive : 0 < ix.threshold
    pub reachable : ix.threshold ≤ length ix.owners % 2 ^ 8
    pub signer : IsSigner rt multisig_signer multisig ix.nonce program_id

  validate-MayCreate :
      (multisig multisig_signer system_program : AccountInfo) (ix : CreateMultisigInstruction)
      → validate rt program_id multisig multisig_signer system_program ix ≡ ok tt
      → MayCreate multisig multisig_signer system_program ix
  unfolding validate validate_pda
  validate-MayCreate multisig multisig_signer system_program ix h =
      elim (assert_unique_owners-cases ix.owners) [
        | inl distinct ↦ record {
          right_program = ground arith;
          unique = (assert_unique_owners_iff ix.owners).0 distinct;
          positive = ground arith;
          reachable = ground arith;
          signer = ground arith;
        }
        | inr e ↦ ground arith
      ]

  MayCreate-validate :
      (multisig multisig_signer system_program : AccountInfo) (ix : CreateMultisigInstruction)
      → MayCreate multisig multisig_signer system_program ix
      → validate rt program_id multisig multisig_signer system_program ix ≡ ok tt
  unfolding validate validate_pda
  MayCreate-validate multisig multisig_signer system_program ix h =
      ground (arith, (assert_unique_owners_iff ix.owners).1 h.unique)

  -- The call of the system program that makes the account.
  abbrev pub make_account :
      AccountInfo → AccountInfo → AccountInfo → (ℕ → ℕ) → Multisig → Store → Result Store
  make_account multisig_account payer system_program minimum_balance m s =
      rt.invoke
        (rt.create_account payer.key multisig_account.key (minimum_balance (len m)) (len m)
          program_id)
        (payer ∷ multisig_account ∷ system_program ∷ []) s

  -- create_multisig succeeds, and stores the multisig that was asked for, if its arguments pass
  -- the checks, the rent is known and the system program makes the account.
  pub create_multisig_succeeds :
      (multisig_account multisig_signer payer system_program : AccountInfo)
      (rest : List AccountInfo) (ix : CreateMultisigInstruction) (minimum_balance : ℕ → ℕ)
      (s created : Store)
      → MayCreate multisig_account multisig_signer system_program ix
      → rt.rent_get ≡ ok minimum_balance
      → make_account multisig_account payer system_program minimum_balance (multisig_data ix) s
        ≡ ok created
      → create_multisig rt program_id
          (multisig_account ∷ multisig_signer ∷ payer ∷ system_program ∷ rest)
          ix
          s
        ≡ ok (with_bytes created multisig_account.key (multisig_bytes rt.borsh (multisig_data ix)))
  unfolding create_multisig
  create_multisig_succeeds multisig_account multisig_signer payer system_program rest ix
        minimum_balance s created may rent made =
      simp
        (
          accounts4-cons rt _ _ _ _ rest,
          MayCreate-validate multisig_account multisig_signer system_program ix may,
          rent,
          made,
        )
        (store_multisig-exact rt multisig_account (multisig_data ix) created
          (ap (λ (a : Account). a.bytes) (rt.create_account_new _ _ _ _ _ _ s created made).2))

  -- What a successful call has checked and done.
  pub record Created (accounts : List AccountInfo) (ix : CreateMultisigInstruction) (s t : Store)
      : Type 0 where
    pub multisig_account : AccountInfo
    pub multisig_signer : AccountInfo
    pub payer : AccountInfo
    pub system_program : AccountInfo
    pub rest : List AccountInfo
    pub given : accounts ≡ multisig_account ∷ multisig_signer ∷ payer ∷ system_program ∷ rest
    pub checked : MayCreate multisig_account multisig_signer system_program ix
    -- The account was not in use, and now it is the program's and holds the multisig.
    pub unused : (s multisig_account.key).lamports ≡ 0
    pub empty : (s multisig_account.key).bytes ≡ []
    pub owned : (t multisig_account.key).owner ≡ program_id
    pub holds : HoldsMultisig rt t multisig_account.key (multisig_data ix)
    -- No other account's data or owner has changed.
    pub others_bytes : (k : Pubkey) → k ≢ multisig_account.key → (t k).bytes ≡ (s k).bytes
    pub others_owner : (k : Pubkey) → k ≢ multisig_account.key → (t k).owner ≡ (s k).owner

  -- The store after the account has been made and the multisig stored in it.
  stored-Created :
      (ms signer payer sys : AccountInfo) (rest accounts : List AccountInfo)
      (ix : CreateMultisigInstruction) (minimum_balance : ℕ → ℕ) (s created : Store)
      → accounts ≡ ms ∷ signer ∷ payer ∷ sys ∷ rest
      → IsMultisig (multisig_data ix)
      → MayCreate ms signer sys ix
      → make_account ms payer sys minimum_balance (multisig_data ix) s ≡ ok created
      → Created accounts ix s
          (with_bytes created ms.key (multisig_bytes rt.borsh (multisig_data ix)))
  stored-Created ms signer payer sys rest accounts ix minimum_balance s created given fits may
        made =
      let (unused, empty, new) = rt.create_account_new _ _ _ _ _ _ s created made in
      let others = rt.create_account_others _ _ _ _ _ _ s created made in
      let bytes = multisig_bytes rt.borsh (multisig_data ix) in
      record {
        multisig_account = ms;
        multisig_signer = signer;
        payer = payer;
        system_program = sys;
        rest = rest;
        given = given;
        checked = may;
        unused = unused;
        empty = empty;
        owned = rw (put_self created ms.key, new);
        holds = with_bytes-HoldsMultisig rt created ms.key (multisig_data ix) fits;
        others_bytes = λ k ne. rw (put_ne created ms.key k _ (λ e. ne (sym e))) (others k ne).0;
        others_owner = λ k ne. rw (put_ne created ms.key k _ (λ e. ne (sym e))) (others k ne).1;
      }

  -- If create_multisig succeeds, with values of their types, then the owners are distinct, the
  -- threshold is positive and at most the number of owners as a u8, the signer is the derived
  -- address, and the account was not in use; it now is the program's and holds the multisig that
  -- was asked for, and no other account's data or owner has changed.
  pub create_multisig-Created :
      (accounts : List AccountInfo) (ix : CreateMultisigInstruction) (s t : Store)
      → IsMultisig (multisig_data ix)
      → create_multisig rt program_id accounts ix s ≡ ok t
      → Created accounts ix s t
  unfolding create_multisig
  create_multisig-Created accounts ix s t fits h =
      accounts4-ok rt accounts _ h λ ms signer payer sys rest given h₀.
        bind_ok (validate rt program_id ms signer sys ix) _ h₀ λ _ valid h₁.
          bind_ok rt.rent_get _ h₁ λ minimum_balance rent h₂.
            bind_ok (make_account ms payer sys minimum_balance (multisig_data ix) s) _ h₂
              λ created made h₃.
                let (_, _, new) = rt.create_account_new _ _ _ _ _ _ s created made in
                let stored =
                  store_multisig-exact rt ms (multisig_data ix) created
                    (ap (λ (a : Account). a.bytes) new) in
                subst (Created accounts ix s) (ok-injective (sym stored ∙ h₃)) (
                  stored-Created ms signer payer sys rest accounts ix minimum_balance s created
                    given fits (validate-MayCreate ms signer sys ix valid) made)

  -- The multisig of a call that passes the checks is well formed.
  pub MayCreate-IsValid :
      (multisig multisig_signer system_program : AccountInfo) (ix : CreateMultisigInstruction)
      → MayCreate multisig multisig_signer system_program ix
      → IsValid (multisig_data ix)
  MayCreate-IsValid multisig multisig_signer system_program ix may = record {
    unique = may.unique;
    positive = may.positive;
    reachable = omega (arith, may.reachable);
  }
