-- ===== src/Lifecycle/Runs.antt =====
-- What can happen to the accounts, in any order: calls of the instructions of
-- program/src/processor.rs, by anybody and from within `ExecuteTransaction`, and what other
-- programs do.
use multisig_native.Base.{ℕ, ◌≤◌, ◌≡◌, ◌≢◌, List, length, replicate, All}
use multisig_native.Errors.{ok}
use multisig_native.Sdk.{Pubkey, AccountInfo, Store, Runtime, IsKey, Seeds, Instruction}
use multisig_native.Common.{close_account}
use multisig_native.Common.Writes.{max_data_length}
use multisig_native.Instructions.ExecuteTransaction
use multisig_native.Instructions.ExecuteTransaction.{ValidatedAccounts}
use multisig_native.Processor.{MultisigInstruction, execute_transaction_ix, IsInstruction, dispatch}

-- No account is larger than the runtime allows.
abbrev pub IsSmall : Store → Type 0
IsSmall s = (k : Pubkey) → length (s k).bytes ≤ max_data_length

-- The runtime's rules for other programs: an account of this program keeps its data and its
-- owner, and an account that becomes this program's has zeroed data.
pub record Outside (program_id : Pubkey) (s t : Store) : Type 0 where
  pub keeps :
      (k : Pubkey)
      → (s k).owner ≡ program_id
      → ((t k).bytes ≡ (s k).bytes) × ((t k).owner ≡ program_id)
  pub zeroed :
      (k : Pubkey)
      → (s k).owner ≢ program_id
      → (t k).owner ≡ program_id
      → (n : ℕ) × ((t k).bytes ≡ replicate n 0)

-- A successful call of an instruction that calls no stored ones.
pub record Call (rt : Runtime) (program_id : Pubkey) (s t : Store) : Type 0 where
  pub accounts : List AccountInfo
  pub ix : MultisigInstruction
  pub typed : IsInstruction ix
  pub keys : All (λ a. IsKey a.key) accounts
  pub small : IsSmall s
  pub small_after : IsSmall t
  pub plain : ix ≢ execute_transaction_ix
  pub success : dispatch rt program_id accounts ix s ≡ ok t

-- A call of `ExecuteTransaction` is in three parts: the checks, a run of whatever the stored
-- instructions do, and the closing of the transaction account.
pub data Run (rt : Runtime) (program_id : Pubkey) : Store → Store → Type 0 where
  start : {s : Store} → Run rt program_id s s
  call : {s t u : Store} → Run rt program_id s t → Call rt program_id t u → Run rt program_id s u
  outside : {s t u : Store} → Run rt program_id s t → Outside program_id t u → Run rt program_id s u
  execute :
      {s t u w : Store} (accounts : List AccountInfo) (v : ValidatedAccounts)
      → Run rt program_id s t
      → ExecuteTransaction.validate rt program_id accounts t ≡ ok v
      → Run rt program_id t u
      → close_account rt v.transaction_account v.refundee u ≡ ok w
      → Run rt program_id s w

module _ (rt : Runtime) (program_id : Pubkey) where
  pub Run-trans :
      {s t u : Store} → Run rt program_id s t → Run rt program_id t u → Run rt program_id s u
  Run-trans r start = r
  Run-trans r (call q c) = call (Run-trans r q) c
  Run-trans r (outside q o) = outside (Run-trans r q) o
  Run-trans r (execute accounts v q valid inner closes) =
      execute accounts v (Run-trans r q) valid inner closes

  -- What invoking a program does is a run: the invoked program is this one or another one.
  abbrev pub InvokesRun : Type 0
  InvokesRun =
      (ix : Instruction) (infos : List AccountInfo) (seeds : Seeds) (s t : Store)
      → rt.invoke_signed ix infos seeds s ≡ ok t
      → Run rt program_id s t
