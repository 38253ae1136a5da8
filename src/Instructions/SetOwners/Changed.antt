-- ===== src/Instructions/SetOwners/Changed.antt =====
-- What a successful `set_owners` (program/src/instructions/set_owners.rs) has checked and
-- written.
use multisig_native.Base.{◌≤◌, ◌≡◌, List, ◌∷◌, length, ==_refl}
use multisig_native.Errors.{ok, bind_ok, ok-injective}
use multisig_native.Sdk.{Pubkey, AccountInfo, Store, Runtime, IsKey, IsVec}
use multisig_native.State.MultisigAccount.{Multisig}
use multisig_native.State.Stored.{multisig_bytes}
use multisig_native.State.Saved.{
  HoldsMultisig, Rewritten, with_bytes, with_bytes-Rewritten, with_bytes-HoldsMultisig,
}
use multisig_native.Common.{with_owners, validate_owners}
use multisig_native.Common.Checks.{AreOwnersFor, validate_owners_iff, validate_signer_iff}
use multisig_native.Common.Writes.{execute_set_owners_lem, with_owners-stored, max_data_length}
use multisig_native.Instructions.Accounts.{accounts2-ok, accounts2-cons}
use multisig_native.Instructions.Authority.{MayChange, change-ok}
use multisig_native.Instructions.SetOwners.{SetOwnersInstruction, set_owners}

module _ (rt : Runtime) (program_id : Pubkey) where
  -- What a successful call has checked and done.
  pub record OwnersChanged (accounts : List AccountInfo) (owners : List Pubkey) (s t : Store)
      : Type 0 where
    pub multisig_account : AccountInfo
    pub multisig_signer : AccountInfo
    pub rest : List AccountInfo
    pub given : accounts ≡ multisig_account ∷ multisig_signer ∷ rest
    pub multisig : Multisig
    pub allowed : MayChange rt program_id multisig_account multisig_signer multisig s
    pub suitable : AreOwnersFor multisig owners
    -- Now the account holds the multisig with its new owners, and nothing else has changed.
    pub holds : HoldsMultisig rt t multisig_account.key (with_owners multisig owners)
    pub rewritten : Rewritten s t multisig_account.key

  -- If set_owners succeeds, then the multisig account is the program's, its derived address has
  -- signed, and the new owners are distinct, not none, and fit into the account; afterwards the
  -- account holds the multisig with the new owners, and nothing else has changed. The new owners
  -- are keys, and no account is larger than the runtime allows.
  pub set_owners-OwnersChanged :
      (accounts : List AccountInfo) (ix : SetOwnersInstruction) (s t : Store)
      → ((k : Pubkey) → length (s k).bytes ≤ max_data_length)
      → IsVec IsKey ix.owners
      → set_owners rt program_id accounts ix s ≡ ok t
      → OwnersChanged accounts ix.owners s t
  unfolding set_owners
  set_owners-OwnersChanged accounts ix s t sizes keys h =
      accounts2-ok rt accounts _ h λ ms signer rest given h₀.
        change-ok rt program_id ms signer s _ h₀ λ m may h₁.
          bind_ok (validate_owners m ix.owners) _ h₁ λ _ valid h₂.
            let suitable = (validate_owners_iff m ix.owners).0 valid in
            let written =
              execute_set_owners_lem rt ms m ix.owners s may.holds_multisig suitable.space in
            let fits =
              with_owners-stored rt ms.key m ix.owners s may.holds_multisig suitable.space
                (sizes ms.key) keys in
            let after : with_bytes s ms.key (multisig_bytes rt.borsh (with_owners m ix.owners))
                ≡ t =
              ok-injective (rw written at h₂) in
            record {
              multisig_account = ms;
              multisig_signer = signer;
              rest = rest;
              given = given;
              multisig = m;
              allowed = may;
              suitable = suitable;
              holds =
                  rw (← after)
                    (with_bytes-HoldsMultisig rt s ms.key (with_owners m ix.owners) fits);
              rewritten = rw (← after) (with_bytes-Rewritten s ms.key _);
            }

  -- set_owners succeeds, and writes the multisig with the new owners, if the multisig account is
  -- the program's, its derived address has signed, and the new owners are distinct, not none, and
  -- fit into the account.
  pub set_owners_succeeds :
      (ms signer : AccountInfo) (rest : List AccountInfo) (ix : SetOwnersInstruction) (m : Multisig)
      (s : Store)
      → MayChange rt program_id ms signer m s
      → AreOwnersFor m ix.owners
      → set_owners rt program_id (ms ∷ signer ∷ rest) ix s
        ≡ ok (with_bytes s ms.key (multisig_bytes rt.borsh (with_owners m ix.owners)))
  unfolding set_owners
  set_owners_succeeds ms signer rest ix m s may suitable = simp (
    accounts2-cons rt ms signer rest,
    may.holds_multisig,
    (validate_signer_iff rt signer ms m program_id).1 (may.signer, may.signed),
    (validate_owners_iff m ix.owners).1 suitable,
    execute_set_owners_lem rt ms m ix.owners s may.holds_multisig suitable.space,
    may.multisig_owned,
    ==_refl program_id,
  )
