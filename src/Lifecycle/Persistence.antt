-- ===== src/Lifecycle/Persistence.antt =====
-- Whether a multisig account stays one, over all that can happen to the accounts: the
-- instructions of program/src/processor.rs and what they invoke.
use multisig_native.Base.{◌≤◌, ◌≡◌, ◌≢◌, sym, ◌∙◌, List, length, some, get_elem?, arith}
use multisig_native.Sdk.{Pubkey, AccountInfo, Store, Runtime}
use multisig_native.State.TransactionAccount.{Transaction}
use multisig_native.State.Saved.{HoldsTransaction}
use multisig_native.State.Confusion.{both_kinds}
use multisig_native.Common.Close.{Closed-same, close_account-Closed}
use multisig_native.Common.Writes.{max_data_length}
use multisig_native.Instructions.ExecuteTransaction.Validated.{validate-Validated}
use multisig_native.Processor.{MultisigInstruction}
use multisig_native.Lifecycle.Runs.{Call, Run, start, call, outside, execute}
use multisig_native.Lifecycle.Votes.{IsClear}
use multisig_native.Lifecycle.Validity.{KeepsOwners, ReadsTransaction, HoldsValid, dispatch-Kept}

-- The multisig that is given to approve or cancel one of its transactions has a key that is no
-- number of owners.
abbrev pub GivesClear : Runtime → MultisigInstruction → List AccountInfo → Type 0
GivesClear rt ix accounts =
    ReadsTransaction ix → (ms : AccountInfo) → get_elem? accounts 0 ≡ some ms → IsClear rt ms.key

-- So it is in all calls of the run, and none sets a multiple of 256 owners.
unfoldable pub IsRegular :
    {rt : Runtime} {program_id : Pubkey} {s t : Store} → Run rt program_id s t → Type 0
IsRegular start = Unit
IsRegular {rt} (call r c) = IsRegular r × GivesClear rt c.ix c.accounts × KeepsOwners c.ix
IsRegular (outside r o) = IsRegular r
IsRegular {rt} (execute accounts v r valid inner closes) =
    IsRegular r × IsRegular inner × IsClear rt v.multisig_account.key

-- The account at `k` is this program's, and holds a well-formed multisig.
pub record Stands (rt : Runtime) (program_id : Pubkey) (s : Store) (k : Pubkey) : Type 0 where
  pub owned : (s k).owner ≡ program_id
  pub small : length (s k).bytes ≤ max_data_length
  pub holds_valid : HoldsValid rt s k

module _ (rt : Runtime) (program_id k : Pubkey) where
  -- It is not read as a transaction of a multisig whose key is clear.
  not-transaction :
      (s : Store) (key : Pubkey) (tr : Transaction)
      → Stands rt program_id s k
      → IsClear rt key
      → tr.multisig ≡ key
      → ¬ HoldsTransaction rt s k tr
  not-transaction s key tr st clear belongs h =
      let m = st.holds_valid.multisig in
      let (size, prefix) = both_kinds rt.borsh (s k).bytes m tr st.holds_valid.holds h in
      let small = st.small in clear (length m.owners) (omega arith) (rw (← belongs) prefix)

  call-Stands :
      (s t : Store) (c : Call rt program_id s t)
      → GivesClear rt c.ix c.accounts
      → KeepsOwners c.ix
      → Stands rt program_id s k
      → Stands rt program_id t k
  call-Stands s t c clear keeps st =
      let (holds_valid, same_owner) =
        dispatch-Kept rt program_id c.accounts s t k st.holds_valid c.ix c.typed keeps c.keys
          c.small c.plain
          (λ reads ms tr at belongs. not-transaction s ms.key tr st (clear reads ms at) belongs)
          c.success in
      record { owned = same_owner ∙ st.owned; small = c.small_after k; holds_valid = holds_valid }

  same-Stands :
      (s t : Store)
      → (t k).bytes ≡ (s k).bytes
      → (t k).owner ≡ (s k).owner
      → Stands rt program_id s k
      → Stands rt program_id t k
  same-Stands s t same_bytes same_owner st = record {
    owned = same_owner ∙ st.owned;
    small = rw same_bytes st.small;
    holds_valid = record {
      multisig = st.holds_valid.multisig;
      holds = rw same_bytes st.holds_valid.holds;
      valid = st.holds_valid.valid;
    };
  }

  -- After any run an account that was the program's and held a well-formed multisig (distinct
  -- owners, a positive threshold of at most their number) still is and does, if no call of the
  -- run sets a multiple of 256 owners by SetOwners, and no multisig that is given to approve,
  -- execute or cancel a transaction has a key that begins with a number of owners, as a u32, for
  -- which an account has room. A run is calls whose values are of their types, executions with
  -- whatever run their instructions make, and steps of other programs that keep the runtime's
  -- rules.
  pub Run-Stands :
      {s t : Store} (r : Run rt program_id s t)
      → IsRegular r
      → Stands rt program_id s k
      → Stands rt program_id t k
  unfolding IsRegular
  Run-Stands start regular st = st
  Run-Stands (call {t} {u} r c) (before, clear, keeps) st =
      call-Stands t u c clear keeps (Run-Stands r before st)
  Run-Stands (outside {t} {u} r o) regular st =
      let here = Run-Stands r regular st in
      let (same_bytes, same_owner) = o.keeps k here.owned in
      same-Stands t u same_bytes (same_owner ∙ sym here.owned) here
  Run-Stands (execute {t} {u} {w} accounts v r valid inner closes) (before, within, clear) st =
      let checked = validate-Validated rt program_id accounts t v valid in
      let may = checked.checked.ready in
      let here = Run-Stands r before st in
      let ne : k ≢ v.transaction_account.key = λ e.
        not-transaction t v.multisig_account.key v.transaction here clear may.belongs
          (rw e may.holds_transaction) in
      let closed = close_account-Closed rt v.transaction_account v.refundee u w may.apart closes in
      let (same_bytes, same_owner) = Closed-same k ne closed in
      same-Stands u w same_bytes same_owner (Run-Stands inner within here)
