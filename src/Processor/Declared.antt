-- ===== src/Processor/Declared.antt =====
-- The accounts that each instruction declares, in the `#[account]` attributes of
-- program/src/processor.rs, against those that it takes and asks for signatures.
use multisig_native.Base.{
  ℕ, zero, suc, ◌<◌, ◌≤◌, ◌≡◌, ap, refl, Bool, true, false, List, [], ◌∷◌, length, some, get_elem?,
  arith,
}
use multisig_native.Errors.{ok, err, not_enough_account_keys}
use multisig_native.Sdk.{AccountInfo, Store, Runtime, Pubkey}
use multisig_native.Common.Writes.{max_data_length}
use multisig_native.Instructions.Accounts.Cases.{
  accounts2_short, accounts3_short, accounts4_short, accounts5_short,
}
use multisig_native.Instructions.CreateMultisig.{create_multisig}
use multisig_native.Instructions.SetOwners.{set_owners}
use multisig_native.Instructions.ChangeThreshold.{change_threshold}
use multisig_native.Instructions.SetOwnersAndChangeThreshold.{set_owners_and_change_threshold}
use multisig_native.Instructions.ProposeTransaction.{propose_transaction}
use multisig_native.Instructions.ApproveTransaction.{approve_transaction}
use multisig_native.Instructions.ExecuteTransaction
use multisig_native.Instructions.ExecuteTransaction.{execute_transaction}
use multisig_native.Instructions.CancelTransaction.{cancel_transaction}
use multisig_native.Instructions.SetOwners.Changed.{set_owners-OwnersChanged}
use multisig_native.Instructions.ChangeThreshold.Changed.{change_threshold-ThresholdChanged}
use multisig_native.Instructions.SetOwnersAndChangeThreshold.Changed.{
  set_owners_and_change_threshold-BothChanged,
}
use multisig_native.Instructions.ApproveTransaction.Approved.{approve_transaction-Approved}
use multisig_native.Instructions.ExecuteTransaction.Executed.{execute_transaction-Executed}
use multisig_native.Instructions.CancelTransaction.Cancelled.{cancel_transaction-Cancelled}
use multisig_native.Processor.{
  MultisigInstruction, create_multisig_ix, set_owners_ix, change_threshold_ix,
  set_owners_and_change_threshold_ix, propose_transaction_ix, approve_transaction_ix,
  execute_transaction_ix, cancel_transaction_ix, IsInstruction, dispatch,
}

-- An `#[account]` attribute: whether it says `signer`, and whether `writable`.
pub record Declared : Type 0 where
  pub signer : Bool
  pub writable : Bool

abbrev plain : Declared
plain = record { signer = false; writable = false }

abbrev writable : Declared
writable = record { signer = false; writable = true }

abbrev signer : Declared
signer = record { signer = true; writable = false }

abbrev writable_signer : Declared
writable_signer = record { signer = true; writable = true }

unfoldable pub declared : MultisigInstruction → List Declared
declared (create_multisig_ix d) = writable_signer ∷ plain ∷ writable_signer ∷ plain ∷ []
declared (set_owners_ix d) = writable ∷ signer ∷ []
declared (change_threshold_ix d) = writable ∷ signer ∷ []
declared (set_owners_and_change_threshold_ix d) = writable ∷ signer ∷ []
declared (propose_transaction_ix d) =
    plain ∷ writable_signer ∷ signer ∷ writable_signer ∷ plain ∷ []
declared approve_transaction_ix = plain ∷ writable ∷ signer ∷ []
declared execute_transaction_ix = plain ∷ plain ∷ writable ∷ writable ∷ signer ∷ []
declared cancel_transaction_ix = plain ∷ writable ∷ writable ∷ signer ∷ []

module _ (rt : Runtime) (program_id : Pubkey) (accounts : List AccountInfo) (s : Store) where
  -- With fewer accounts than its attributes declare, every instruction returns
  -- NotEnoughAccountKeys, whatever the accounts hold.
  pub dispatch_short :
      (ix : MultisigInstruction)
      → length accounts < length (declared ix)
      → dispatch rt program_id accounts ix s ≡ err not_enough_account_keys
  unfolding declared dispatch create_multisig set_owners change_threshold
      set_owners_and_change_threshold propose_transaction approve_transaction cancel_transaction
      execute_transaction ExecuteTransaction.validate
  dispatch_short (create_multisig_ix d) h = accounts4_short rt accounts _ h
  dispatch_short (set_owners_ix d) h = accounts2_short rt accounts _ h
  dispatch_short (change_threshold_ix d) h = accounts2_short rt accounts _ h
  dispatch_short (set_owners_and_change_threshold_ix d) h = accounts2_short rt accounts _ h
  dispatch_short (propose_transaction_ix d) h = accounts5_short rt accounts _ h
  dispatch_short approve_transaction_ix h = accounts3_short rt accounts _ h
  dispatch_short execute_transaction_ix h = simp (accounts5_short rt accounts _ h)
  dispatch_short cancel_transaction_ix h = accounts4_short rt accounts _ h

-- The instructions that make an account leave the signatures of the payer and of the new account
-- to the system program.
abbrev pub MakesNone : MultisigInstruction → Type 0
MakesNone (create_multisig_ix d) = ⊥
MakesNone (propose_transaction_ix d) = ⊥
MakesNone _ = Unit

-- The account at `i` has signed.
abbrev pub HasSigned : List AccountInfo → ℕ → Type 0
HasSigned accounts i = (a : AccountInfo) × (get_elem? accounts i ≡ some a) × (a.is_signer ≡ true)

abbrev pub IsSignerAt : MultisigInstruction → ℕ → Type 0
IsSignerAt ix i = (d : Declared) × (get_elem? (declared ix) i ≡ some d) × (d.signer ≡ true)

signer_at : MultisigInstruction → ℕ
signer_at approve_transaction_ix = 2
signer_at execute_transaction_ix = 4
signer_at cancel_transaction_ix = 3
signer_at _ = 1

-- Past accounts that are declared without `signer`, the signer is the last.
after_plain :
    (d : Declared) (ds : List Declared) (i p : ℕ)
    → d.signer ≡ false
    → ((j : ℕ) (e : Declared) → get_elem? ds j ≡ some e → e.signer ≡ true → j ≡ p)
    → (e : Declared) → get_elem? (d ∷ ds) i ≡ some e
    → e.signer ≡ true
    → i ≡ suc p
after_plain d ds zero p no_signer rest e at y = ground arith
after_plain d ds (suc j) p no_signer rest e at y = ap suc (rest j e at y)

last :
    (d : Declared) (j : ℕ) (e : Declared) → get_elem? (d ∷ []) j ≡ some e → e.signer ≡ true → j ≡ 0
last d zero e at y = refl
last d (suc j) e at y = cc

last_of_two :
    (j : ℕ) (e : Declared) → get_elem? (writable ∷ signer ∷ []) j ≡ some e → e.signer ≡ true → j ≡ 1
last_of_two j = after_plain writable (signer ∷ []) j 0 refl (last signer)

last_of_three :
    (j : ℕ) (e : Declared)
    → get_elem? (writable ∷ writable ∷ signer ∷ []) j ≡ some e
    → e.signer ≡ true
    → j ≡ 2
last_of_three j = after_plain writable (writable ∷ signer ∷ []) j 1 refl last_of_two

signer_at_last :
    (ix : MultisigInstruction) (i : ℕ) → MakesNone ix → IsSignerAt ix i → i ≡ signer_at ix
unfolding declared signer_at
signer_at_last (create_multisig_ix d) i makes at = absurd makes
signer_at_last (propose_transaction_ix d) i makes at = absurd makes
signer_at_last (set_owners_ix d) i makes (e, at, y) =
    after_plain writable (signer ∷ []) i 0 refl (last signer) e at y
signer_at_last (change_threshold_ix d) i makes (e, at, y) =
    after_plain writable (signer ∷ []) i 0 refl (last signer) e at y
signer_at_last (set_owners_and_change_threshold_ix d) i makes (e, at, y) =
    after_plain writable (signer ∷ []) i 0 refl (last signer) e at y
signer_at_last approve_transaction_ix i makes (e, at, y) =
    after_plain plain (writable ∷ signer ∷ []) i 1 refl last_of_two e at y
signer_at_last cancel_transaction_ix i makes (e, at, y) =
    after_plain plain (writable ∷ writable ∷ signer ∷ []) i 2 refl last_of_three e at y
signer_at_last execute_transaction_ix i makes (e, at, y) =
    after_plain plain (plain ∷ writable ∷ writable ∷ signer ∷ []) i 3 refl
      (λ j. after_plain plain (writable ∷ writable ∷ signer ∷ []) j 2 refl last_of_three) e at y

module _ (rt : Runtime) (program_id : Pubkey) (accounts : List AccountInfo) (s t : Store)
    (sizes : (k : Pubkey) → length (s k).bytes ≤ max_data_length) where
  signed :
      (ix : MultisigInstruction)
      → IsInstruction ix
      → MakesNone ix
      → dispatch rt program_id accounts ix s ≡ ok t
      → HasSigned accounts (signer_at ix)
  unfolding dispatch signer_at
  signed (create_multisig_ix d) fits makes h = absurd makes
  signed (propose_transaction_ix d) fits makes h = absurd makes
  signed (set_owners_ix d) fits makes h =
      let c = set_owners-OwnersChanged rt program_id accounts d s t sizes fits h in
      (c.multisig_signer, rw c.given, c.allowed.signed)
  signed (change_threshold_ix d) fits makes h =
      let c = change_threshold-ThresholdChanged rt program_id accounts d s t h in
      (c.multisig_signer, rw c.given, c.allowed.signed)
  signed (set_owners_and_change_threshold_ix d) fits makes h =
      let c =
        set_owners_and_change_threshold-BothChanged rt program_id accounts d s t sizes fits.0 h in
      (c.multisig_signer, rw c.given, c.allowed.signed)
  signed approve_transaction_ix fits makes h =
      let c = approve_transaction-Approved rt program_id accounts s t h in
      (c.approver, rw c.given, c.checked.signed)
  signed execute_transaction_ix fits makes h =
      let c = execute_transaction-Executed rt program_id accounts s t h in
      (c.checked.executor, rw c.checked.given, c.checked.checked.ready.signed)
  signed cancel_transaction_ix fits makes h =
      let c = cancel_transaction-Cancelled rt program_id accounts s t h in
      (c.executor, rw c.given, c.checked.signed)

  -- If an instruction that makes no account succeeds, then the accounts that its attributes
  -- declare as signers were given and have signed. The instruction's values are of their types,
  -- and no account is larger than the runtime allows.
  pub dispatch-HasSigned :
      (ix : MultisigInstruction) (i : ℕ)
      → IsInstruction ix
      → MakesNone ix
      → IsSignerAt ix i
      → dispatch rt program_id accounts ix s ≡ ok t
      → HasSigned accounts i
  unfolding dispatch declared
  dispatch-HasSigned ix i fits makes at h =
      rw (signer_at_last ix i makes at) (signed ix fits makes h)
