-- ===== src/Lifecycle/History.antt =====
-- The program as the runtime sees it: data that is handed to `process_instruction`
-- (program/src/processor.rs), call after call, with other programs acting in between.
use multisig_native.Base.{◌⊎◌, inl, inr, ℕ, ◌≡◌, ◌≢◌, List, All, refl}
use multisig_native.Errors.{ok, bind_ok}
use multisig_native.Sdk.{IsKey, Pubkey, AccountInfo, Store, Runtime, Seeds}
use multisig_native.State.InstructionData.{TransactionInstructionData}
use multisig_native.Instructions.ExecuteTransaction
use multisig_native.Instructions.ExecuteTransaction.{execute_transaction, invoke_all}
use multisig_native.Instructions.ExecuteTransaction.Executed.{
  Invokes, none_left, then, invoke_all-Invokes,
}
use multisig_native.Processor.{
  MultisigInstruction, create_multisig_ix, set_owners_ix, change_threshold_ix,
  set_owners_and_change_threshold_ix, propose_transaction_ix, approve_transaction_ix,
  execute_transaction_ix, cancel_transaction_ix, IsInstruction, dispatch, process_instruction,
}
use multisig_native.Processor.Dispatch.{process_instruction-ok}
use multisig_native.Lifecycle.Runs.{
  IsSmall, Outside, Run, start, call, outside, execute, Run-trans, InvokesRun,
}

pub data History (rt : Runtime) (program_id : Pubkey) (s : Store) : Store → Type 0 where
  begin : History rt program_id s s
  instruction :
      {t u : Store} (accounts : List AccountInfo) (bytes : List ℕ)
      → History rt program_id s t
      → All (λ a. IsKey a.key) accounts
      → IsSmall t
      → IsSmall u
      → process_instruction rt program_id accounts bytes t ≡ ok u
      → History rt program_id s u
  others :
      {t u : Store} → History rt program_id s t → Outside program_id t u → History rt program_id s u

is_execute :
    (ix : MultisigInstruction) → (ix ≡ execute_transaction_ix) ⊎ (ix ≢ execute_transaction_ix)
is_execute execute_transaction_ix = inl refl
is_execute (create_multisig_ix d) = inr (λ e. cc)
is_execute (set_owners_ix d) = inr (λ e. cc)
is_execute (change_threshold_ix d) = inr (λ e. cc)
is_execute (set_owners_and_change_threshold_ix d) = inr (λ e. cc)
is_execute (propose_transaction_ix d) = inr (λ e. cc)
is_execute approve_transaction_ix = inr (λ e. cc)
is_execute cancel_transaction_ix = inr (λ e. cc)

module _ (rt : Runtime) (program_id : Pubkey) (invokes : InvokesRun rt program_id) where
  Invokes-Run :
      {signer_key : Pubkey} {seeds : Seeds} {accounts : List AccountInfo}
      {ixs : List TransactionInstructionData} {s t : Store}
      → Invokes rt signer_key seeds accounts ixs s t
      → Run rt program_id s t
  Invokes-Run none_left = start
  Invokes-Run (then first rest) =
      Run-trans rt program_id (invokes _ _ _ _ _ first) (Invokes-Run rest)

  execute_transaction-Run :
      (accounts : List AccountInfo) (s t : Store)
      → execute_transaction rt program_id accounts s ≡ ok t
      → Run rt program_id s t
  unfolding execute_transaction
  execute_transaction-Run accounts s t h =
      bind_ok (ExecuteTransaction.validate rt program_id accounts s) _ h λ v valid h₁.
        bind_ok
          (invoke_all rt v.multisig_signer.key
            (record { address = v.multisig_account.key; nonce = v.multisig.nonce }) accounts
            v.transaction.instructions s)
          _ h₁
          λ u invoked closes.
            execute accounts v start valid
              (Invokes-Run (
                invoke_all-Invokes rt v.multisig_signer.key
                  (record { address = v.multisig_account.key; nonce = v.multisig.nonce }) accounts
                  v.transaction.instructions s u invoked))
              closes

  dispatch-Run :
      (accounts : List AccountInfo) (ix : MultisigInstruction) (s t : Store)
      → IsInstruction ix
      → All (λ a. IsKey a.key) accounts
      → IsSmall s
      → IsSmall t
      → dispatch rt program_id accounts ix s ≡ ok t
      → Run rt program_id s t
  unfolding dispatch
  dispatch-Run accounts ix s t typed keys small after h = elim (is_execute ix) [
    | inl e ↦ execute_transaction-Run accounts s t (rw e at h)
    | inr ne ↦ call start (record {
      accounts = accounts;
      ix = ix;
      typed = typed;
      keys = keys;
      small = small;
      small_after = after;
      plain = ne;
      success = h;
    })
  ]

  -- Every history of successful process_instruction calls on any data, with steps of other
  -- programs between them, is a run of typed instructions. Keys are below 2^256, no account is
  -- larger than the runtime allows, and what invoking a program does is a run.
  pub History-Run : {s t : Store} → History rt program_id s t → Run rt program_id s t
  History-Run begin = start
  History-Run (others p o) = outside (History-Run p) o
  History-Run (instruction {t} {u} accounts bytes p keys small after h) =
      let (ix, typed, _, run) = process_instruction-ok rt program_id accounts bytes t u h in
      Run-trans rt program_id (History-Run p)
        (dispatch-Run accounts ix t u typed keys small after run)
