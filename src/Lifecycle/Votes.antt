-- ===== src/Lifecycle/Votes.antt =====
-- The votes of a transaction, and what it is that one was cast in a run (the `signers` that
-- program/src/instructions/propose_transaction.rs and approve_transaction.rs set).
use multisig_native.Base.{ℕ, ◌+◌, ◌*◌, ◌≤◌, ◌≡◌, ◌≢◌, ◌⊎◌, true, List, take, some, get_elem?}
use multisig_native.Sdk.{Pubkey, AccountInfo, Store, Runtime}
use multisig_native.State.MultisigAccount.{Multisig}
use multisig_native.State.TransactionAccount.{Transaction}
use multisig_native.State.Saved.{HoldsMultisig, HoldsTransaction}
use multisig_native.Common.Writes.{max_data_length}
use multisig_native.Processor.{
  MultisigInstruction, set_owners_ix, set_owners_and_change_threshold_ix, propose_transaction_ix,
  approve_transaction_ix, cancel_transaction_ix,
}
use multisig_native.Lifecycle.Runs.{Run, start, call, outside, execute}

-- The key of a multisig that is no other multisig's number of owners: of a multisig account that
-- is also read as a transaction, the transaction is not this key's.
abbrev pub IsClear : Runtime → Pubkey → Type 0
IsClear rt key =
    (n : ℕ) → 32 * n ≤ max_data_length → take 4 (rt.borsh.pubkey.write key) ≢ rt.borsh.u32.write n

abbrev pub IsVoting : MultisigInstruction → Type 0
IsVoting (propose_transaction_ix d) = Unit
IsVoting approve_transaction_ix = Unit
IsVoting _ = ⊥

-- In the account at `tx` this program stores a transaction of the multisig at `key` and of
-- sequence number `seqno`, with the vote at `index`.
pub record HasVote (rt : Runtime) (program_id : Pubkey) (s : Store) (tx key : Pubkey)
    (seqno index : ℕ) : Type 0 where
  pub owned : (s tx).owner ≡ program_id
  pub transaction : Transaction
  pub holds : HoldsTransaction rt s tx transaction
  pub belongs : transaction.multisig ≡ key
  pub same_seqno : transaction.owner_set_seqno ≡ seqno
  pub voted : get_elem? transaction.signers index ≡ some true

-- The call proposes or approves the transaction at `tx`, and is signed by `voter`, the owner at
-- `index` of the multisig at `key`, which has the sequence number `seqno`.
pub record Vote (rt : Runtime) (program_id : Pubkey) (ix : MultisigInstruction)
    (accounts : List AccountInfo) (s : Store) (tx key : Pubkey) (seqno index : ℕ) (voter : Pubkey)
    : Type 0 where
  pub voting : IsVoting ix
  pub transaction_account : AccountInfo
  pub second : get_elem? accounts 1 ≡ some transaction_account
  pub names_transaction : transaction_account.key ≡ tx
  pub voter_account : AccountInfo
  pub third : get_elem? accounts 2 ≡ some voter_account
  pub names_voter : voter_account.key ≡ voter
  pub signed : voter_account.is_signer ≡ true
  pub multisig : Multisig
  pub multisig_owned : (s key).owner ≡ program_id
  pub holds_multisig : HoldsMultisig rt s key multisig
  pub same_seqno : multisig.owner_set_seqno ≡ seqno
  pub owner : get_elem? multisig.owners index ≡ some voter

-- The vote has been cast in a call of the run, also in one that a stored instruction made.
unfoldable pub Cast :
    {rt : Runtime} {program_id : Pubkey} {s t : Store}
    → Run rt program_id s t
    → (tx key : Pubkey) (seqno index : ℕ) (voter : Pubkey) → Type 0
Cast start tx key seqno index voter = ⊥
Cast {rt} {program_id} (call {t} r c) tx key seqno index voter =
    Cast r tx key seqno index voter ⊎ Vote rt program_id c.ix c.accounts t tx key seqno index voter
Cast (outside r o) tx key seqno index voter = Cast r tx key seqno index voter
Cast (execute accounts v r valid inner closes) tx key seqno index voter =
    Cast r tx key seqno index voter ⊎ Cast inner tx key seqno index voter

-- How many calls of the run have changed the owners of a multisig.
abbrev pub changes_of : MultisigInstruction → ℕ
changes_of (set_owners_ix d) = 1
changes_of (set_owners_and_change_threshold_ix d) = 1
changes_of _ = 0

unfoldable pub changes :
    {rt : Runtime} {program_id : Pubkey} {s t : Store} → Run rt program_id s t → ℕ
changes start = 0
changes (call r c) = changes r + changes_of c.ix
changes (outside r o) = changes r
changes (execute accounts v r valid inner closes) = changes r + changes inner

-- No call of the run approves or cancels the account at `key` as a transaction.
abbrev pub IsAside : MultisigInstruction → List AccountInfo → Pubkey → Type 0
IsAside approve_transaction_ix accounts key =
    (a : AccountInfo) → get_elem? accounts 1 ≡ some a → a.key ≢ key
IsAside cancel_transaction_ix accounts key =
    (a : AccountInfo) → get_elem? accounts 1 ≡ some a → a.key ≢ key
IsAside _ accounts key = Unit

unfoldable pub StaysAside :
    {rt : Runtime} {program_id : Pubkey} {s t : Store} → Run rt program_id s t → Pubkey → Type 0
StaysAside start key = Unit
StaysAside (call r c) key = StaysAside r key × IsAside c.ix c.accounts key
StaysAside (outside r o) key = StaysAside r key
StaysAside (execute accounts v r valid inner closes) key =
    StaysAside r key × StaysAside inner key × (v.transaction_account.key ≢ key)
