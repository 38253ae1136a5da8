-- ===== src/Tests/Runs.antt =====
-- The theorems over runs, at the life of the scenario's multisig.
use multisig_native.Lifecycle.Signatories.{Signatories, execute_transaction-Signatories}
use multisig_native.Lifecycle.Validity.{HoldsValid}
use native.Mathlib.Decide.{ℕ_discrete}
use multisig_native.State.Stored.{transaction_bytes}
use multisig_native.State.Saved.{with_bytes}
use multisig_native.Instructions.ExecuteTransaction.{execute_transaction}
use multisig_native.Tests.Calls.{transfer_votes}
use multisig_native.Lifecycle.Persistence.{IsRegular, Stands, Run-Stands}
use multisig_native.Tests.Calls.{three_owners}
use multisig_native.Tests.Owners.{three_owners-IsValid}
use multisig_native.Base.{
  subst, ℕ, ◌+◌, ◌*◌, ◌^◌, ◌≤◌, ◌<◌, ◌≡◌, refl, true, false, List, [], ◌∷◌, length, ap, arith, ◌⊎◌,
}
use multisig_native.Errors.{ok}
use multisig_native.Sdk.{Pubkey, put_self, put_ne}
use multisig_native.State.MultisigAccount.{Multisig}
use multisig_native.Common.Writes.{max_data_length}
use multisig_native.Processor.{create_multisig_ix, propose_transaction_ix, approve_transaction_ix}
use multisig_native.Lifecycle.Runs.{IsSmall, Call, Run, start, call}
use multisig_native.Lifecycle.Votes.{IsClear, HasVote, Cast, changes, StaysAside}
use multisig_native.Lifecycle.Quorum.{HasVote-Cast}
use multisig_native.Sdk.{little_endian}
use multisig_native.Tests.Machine.{borsh, machine}
use multisig_native.Tests.Scenario.{
  program, vault, vault_signer, program_id, account, initial, create_accounts, create_ix, created,
  propose_accounts, propose_ix, proposed, approve_accounts, approved, execute_accounts, executed,
}

abbrev value : List ℕ → ℕ
value [] = 0
value (b ∷ bytes) = b + 256 * value bytes

vault-IsClear : IsClear machine vault
unfolding little_endian
vault-IsClear n h e = omega (arith, ap value e)

pub initial-IsSmall : IsSmall initial
initial-IsSmall k = ground arith

pub created-IsSmall : IsSmall created
unfolding program created
created-IsSmall k = ground arith

pub proposed-IsSmall : IsSmall proposed
unfolding program proposed
proposed-IsSmall k = ground arith

approved_put :
    approved
    ≡ with_bytes proposed 20 (transaction_bytes borsh (transfer_votes (true ∷ true ∷ false ∷ [])))
unfolding program approved
approved_put = refl

pub transfer_size :
    length (transaction_bytes borsh (transfer_votes (true ∷ true ∷ false ∷ []))) ≤ max_data_length
unfolding program
transfer_size = omega arith

pub approved-IsSmall : IsSmall approved
approved-IsSmall k = elim (ℕ_discrete 20 k) [
  | yes e ↦ rw (← e, approved_put, put_self proposed 20) transfer_size
  | no ne ↦ rw (approved_put, put_ne proposed 20 k _ ne) (proposed-IsSmall k)
]

create_call : Call machine program_id initial created
unfolding program created
create_call = record {
  accounts = create_accounts;
  ix = create_multisig_ix create_ix;
  typed = ((omega arith, ground arith), (omega arith, omega arith));
  keys = omega arith;
  small = initial-IsSmall;
  small_after = created-IsSmall;
  plain = λ e. cc;
  success = refl;
}

propose_call : Call machine program_id created proposed
unfolding program proposed
propose_call = record {
  accounts = propose_accounts;
  ix = propose_transaction_ix propose_ix;
  typed = (omega arith, (omega arith, tt));
  keys = omega arith;
  small = created-IsSmall;
  small_after = proposed-IsSmall;
  plain = λ e. cc;
  success = refl;
}

approve_call : Call machine program_id proposed approved
unfolding program approved
approve_call = record {
  accounts = approve_accounts;
  ix = approve_transaction_ix;
  typed = tt;
  keys = omega arith;
  small = proposed-IsSmall;
  small_after = approved-IsSmall;
  plain = λ e. cc;
  success = refl;
}

abbrev life : Run machine program_id initial approved
life = call (call (call start create_call) propose_call) approve_call

life-StaysAside : StaysAside life vault
unfolding StaysAside create_call propose_call approve_call
life-StaysAside = (((tt, tt), tt), λ a h. ground arith)

few_changes : changes life < 2 ^ 32
unfolding changes create_call propose_call approve_call
few_changes = omega arith

approved-HasVote : HasVote machine program_id approved 20 vault 0 1
unfolding program approved
approved-HasVote = record {
  owned = refl;
  transaction = transfer_votes (true ∷ true ∷ false ∷ []);
  holds = refl;
  belongs = refl;
  same_seqno = refl;
  voted = refl;
}

HasVote-Cast_example :
    HasVote machine program_id initial 20 vault 0 1
    ⊎ ((voter : Pubkey) × Cast life 20 vault 0 1 voter)
HasVote-Cast_example =
    HasVote-Cast machine program_id vault vault-IsClear life 20 0 1 approved-HasVote

succeeded : execute_transaction machine program_id execute_accounts approved ≡ ok executed
unfolding program executed
succeeded = refl

approved-HoldsValid : HoldsValid machine approved vault
unfolding program approved
approved-HoldsValid = record { multisig = three_owners; holds = refl; valid = three_owners-IsValid }

execute_transaction-Signatories_example :
    (m : Multisig) × (voters : List Pubkey) × Signatories life 20 vault m voters
execute_transaction-Signatories_example =
    execute_transaction-Signatories machine program_id vault vault-IsClear life
      (account vault false) (account vault_signer false) (account 20 false)
      (account 30 false ∷ account 3 true ∷ account 40 false ∷ []) refl approved-HoldsValid
      life-StaysAside few_changes (λ q i v. omega (arith, v.owned)) succeeded

-- From the creation on.
abbrev later : Run machine program_id created approved
later = call (call start propose_call) approve_call

later-IsRegular : IsRegular later
unfolding IsRegular propose_call approve_call
later-IsRegular = (
  (tt, λ reads ms at. absurd reads, tt),
  λ reads ms at. subst (IsClear machine) {x = vault} (cc at) vault-IsClear,
  tt,
)

created-Stands : Stands machine program_id created vault
unfolding program created
created-Stands = record {
  owned = refl;
  small = omega arith;
  holds_valid = record { multisig = three_owners; holds = refl; valid = three_owners-IsValid };
}

Run-Stands_example : Stands machine program_id approved vault
Run-Stands_example = Run-Stands machine program_id vault later later-IsRegular created-Stands
