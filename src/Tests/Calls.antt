-- ===== src/Tests/Calls.antt =====
-- The theorems about the instructions, at the calls of the scenario.
use multisig_native.Processor.{set_owners_ix}
use multisig_native.Lifecycle.Authority.{Signed, dispatch-Signed}
use multisig_native.Lifecycle.Outdated.{dispatch_stale}
use multisig_native.Lifecycle.Runs.{start}
use multisig_native.Lifecycle.Votes.{StaysAside, changes}
use multisig_native.Instructions.ApproveTransaction.{approve_transaction}
use multisig_native.Instructions.ExecuteTransaction.{execute_transaction}
use multisig_native.Instructions.SetOwnersAndChangeThreshold.{
  SetOwnersAndChangeThresholdInstruction, set_owners_and_change_threshold,
}
use multisig_native.Instructions.ChangeThreshold.{ChangeThresholdInstruction}
use multisig_native.Base.{ℕ, ◌≤◌, ◌≢◌, refl, true, false, List, [], ◌∷◌, length, arith, ap, Bool}
use multisig_native.Errors.{ok}
use multisig_native.Sdk.{Pubkey, AccountInfo, Store}
use multisig_native.State.MultisigAccount.{Multisig}
use multisig_native.State.TransactionAccount.{Transaction}
use multisig_native.Common.Writes.{max_data_length}
use multisig_native.Instructions.SetOwners.{SetOwnersInstruction, set_owners}
use multisig_native.Tests.Machine.{machine}
use multisig_native.Tests.Scenario.{
  vault, vault_signer, program, program_id, result, account, proposed, approve_accounts, approved,
  execute_accounts, executed, transfer,
}

-- The multisig gives up its first owner, by its own signature.
abbrev pub change_accounts : List AccountInfo
change_accounts = account vault false ∷ account vault_signer true ∷ []

abbrev pub change_ix : SetOwnersInstruction
change_ix = record { owners = 2 ∷ 3 ∷ [] }

changed : Store
unfolding program proposed
changed = result proposed (set_owners machine program_id change_accounts change_ix proposed)

-- No account of the scenario is large.
pub proposed_sizes : (k : Pubkey) → length (proposed k).bytes ≤ max_data_length
unfolding program proposed
proposed_sizes k = ground arith

abbrev pub cancel_accounts : List AccountInfo
cancel_accounts = account vault false ∷ account 20 false ∷ account 30 false ∷ account 3 true ∷ []

abbrev pub threshold_ix : ChangeThresholdInstruction
threshold_ix = record { threshold = 3 }

abbrev pub both_ix : SetOwnersAndChangeThresholdInstruction
both_ix = record { owners = 2 ∷ []; threshold = 1 }

reduced : Store
unfolding program proposed
reduced =
    result proposed
      (set_owners_and_change_threshold machine program_id change_accounts both_ix proposed)

abbrev pub three_owners : Multisig
three_owners = record {
  owners = 1 ∷ 2 ∷ 3 ∷ [];
  threshold = 2;
  nonce = 255;
  owner_set_seqno = 0;
  padding = [];
}

-- The transaction that has been proposed, with the given votes.
abbrev pub transfer_votes : List Bool → Transaction
transfer_votes signers = record {
  multisig = vault;
  instructions = transfer ∷ [];
  signers = signers;
  owner_set_seqno = 0;
}

-- After the change of owners neither is the transaction executed, nor can it be approved.
dispatch_stale_example :
    (execute_transaction machine program_id execute_accounts changed ≢ ok executed)
    × (approve_transaction machine program_id approve_accounts changed ≢ ok approved)
unfolding program changed StaysAside changes
dispatch_stale_example =
    dispatch_stale machine program_id (account vault false) (account vault_signer true) [] proposed
      changed three_owners (set_owners_ix change_ix) changed executed approved (account 20 false)
      (transfer_votes (true ∷ false ∷ false ∷ [])) start (account vault false)
      (account vault_signer false) (account vault false)
      (account 30 false ∷ account 3 true ∷ account 40 false ∷ []) (account 2 true ∷ []) tt
      (omega arith) proposed_sizes refl refl tt (omega arith) refl refl refl

abbrev head_byte : List ℕ → ℕ
head_byte [] = 0
head_byte (b ∷ bytes) = b

dispatch-Signed_example : Signed machine program_id change_accounts vault three_owners proposed
unfolding program changed
dispatch-Signed_example =
    dispatch-Signed machine program_id change_accounts proposed changed vault three_owners refl
      (λ tr h. cc) (λ e. omega (arith, ap head_byte e)) (set_owners_ix change_ix) (omega arith)
      (omega arith) proposed_sizes (λ e. cc) refl
