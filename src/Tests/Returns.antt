-- ===== src/Tests/Returns.antt =====
-- The theorems about every result of the instructions, at calls of the scenario; some of them are
-- refused.
use multisig_native.Base.{◌≡◌, ◌⊎◌, refl, true, false, [], ◌∷◌, arith}
use multisig_native.Errors.{err, custom, other}
use multisig_native.Common.Branches.{UnfitOwners, UnfitThreshold}
use multisig_native.Instructions.Authority.Refused as AuthorityRefused
use multisig_native.Instructions.CreateMultisig.{create_multisig}
use multisig_native.Instructions.CreateMultisig.Refused.{create_multisig-Returns}
use multisig_native.Instructions.CreateMultisig.Refused as CreateMultisigRefused
use multisig_native.Instructions.SetOwners.{set_owners}
use multisig_native.Instructions.SetOwners.Changed.{OwnersChanged}
use multisig_native.Instructions.SetOwners.Refused.{set_owners-Returns}
use multisig_native.Instructions.ChangeThreshold.{change_threshold}
use multisig_native.Instructions.ChangeThreshold.Changed.{ThresholdChanged}
use multisig_native.Instructions.ChangeThreshold.Refused.{change_threshold-Returns}
use multisig_native.Instructions.SetOwnersAndChangeThreshold.{set_owners_and_change_threshold}
use multisig_native.Instructions.SetOwnersAndChangeThreshold.Changed.{BothChanged}
use multisig_native.Instructions.SetOwnersAndChangeThreshold.Refused.{
  set_owners_and_change_threshold-Returns,
}
use multisig_native.Instructions.ProposeTransaction.{propose_transaction}
use multisig_native.Instructions.ProposeTransaction.Refused.{propose_transaction-Returns}
use multisig_native.Instructions.ProposeTransaction.Refused as ProposeTransactionRefused
use multisig_native.Instructions.ApproveTransaction.{approve_transaction}
use multisig_native.Instructions.ApproveTransaction.Refused.{approve_transaction-Returns}
use multisig_native.Instructions.ApproveTransaction.Refused as ApproveTransactionRefused
use multisig_native.Instructions.ExecuteTransaction.{execute_transaction}
use multisig_native.Instructions.ExecuteTransaction.Refused.{execute_transaction-Returns}
use multisig_native.Instructions.ExecuteTransaction.Refused as ExecuteTransactionRefused
use multisig_native.Instructions.CancelTransaction.{cancel_transaction}
use multisig_native.Instructions.CancelTransaction.Refused.{cancel_transaction-Returns}
use multisig_native.Instructions.CancelTransaction.Refused as CancelTransactionRefused
use multisig_native.Tests.Machine.{machine}
use multisig_native.Tests.Scenario.{
  vault, program, program_id, account, initial, create_accounts, create_ix, created,
  propose_accounts, propose_ix, proposed, approve_accounts, approved, execute_accounts,
}
use multisig_native.Tests.Calls.{
  proposed_sizes, change_accounts, change_ix, threshold_ix, both_ix, cancel_accounts,
}

create_multisig-Returns_example :
    CreateMultisigRefused.Returns machine program_id create_accounts create_ix initial
      (create_multisig machine program_id create_accounts create_ix initial)
create_multisig-Returns_example =
    create_multisig-Returns machine program_id create_accounts create_ix initial (omega arith)

-- Nobody can make the multisig again.
created_twice : create_multisig machine program_id create_accounts create_ix created ≡ err (other 0)
unfolding program created
created_twice = refl

propose_transaction-Returns_example :
    ProposeTransactionRefused.Returns machine program_id propose_accounts propose_ix created
      (propose_transaction machine program_id propose_accounts propose_ix created)
propose_transaction-Returns_example =
    propose_transaction-Returns machine program_id propose_accounts propose_ix created (omega arith)
      (omega arith, (omega arith, tt))

approve_transaction-Returns_example :
    ApproveTransactionRefused.Returns machine program_id approve_accounts proposed
      (approve_transaction machine program_id approve_accounts proposed)
approve_transaction-Returns_example =
    approve_transaction-Returns machine program_id approve_accounts proposed

-- The key 4 is no owner.
approved_by_stranger :
    approve_transaction machine program_id
      (account vault false ∷ account 20 false ∷ account 4 true ∷ [])
      proposed
    ≡ err (custom 2)
unfolding program proposed
approved_by_stranger = refl

execute_transaction-Returns_example :
    ExecuteTransactionRefused.Returns machine program_id execute_accounts approved
      (execute_transaction machine program_id execute_accounts approved)
execute_transaction-Returns_example =
    execute_transaction-Returns machine program_id execute_accounts approved

cancel_transaction-Returns_example :
    CancelTransactionRefused.Returns machine program_id cancel_accounts proposed
      (cancel_transaction machine program_id cancel_accounts proposed)
cancel_transaction-Returns_example =
    cancel_transaction-Returns machine program_id cancel_accounts proposed

set_owners-Returns_example :
    AuthorityRefused.Returns machine program_id change_accounts proposed
      (λ m. UnfitOwners m (2 ∷ 3 ∷ []))
      (OwnersChanged machine program_id change_accounts (2 ∷ 3 ∷ []) proposed)
      (set_owners machine program_id change_accounts change_ix proposed)
set_owners-Returns_example =
    set_owners-Returns machine program_id change_accounts change_ix proposed proposed_sizes
      (omega arith)

-- Four owners do not fit.
set_too_many :
    set_owners machine program_id change_accounts (record { owners = 1 ∷ 2 ∷ 3 ∷ 4 ∷ [] }) proposed
    ≡ err (custom 7)
unfolding program proposed
set_too_many = refl

change_threshold-Returns_example :
    AuthorityRefused.Returns machine program_id change_accounts proposed
      (λ m. UnfitThreshold 3 m.owners)
      (ThresholdChanged machine program_id change_accounts 3 proposed)
      (change_threshold machine program_id change_accounts threshold_ix proposed)
change_threshold-Returns_example =
    change_threshold-Returns machine program_id change_accounts threshold_ix proposed

set_owners_and_change_threshold-Returns_example :
    AuthorityRefused.Returns machine program_id change_accounts proposed
      (λ m e. UnfitOwners m both_ix.owners e ⊎ UnfitThreshold both_ix.threshold both_ix.owners e)
      (BothChanged machine program_id change_accounts both_ix proposed)
      (set_owners_and_change_threshold machine program_id change_accounts both_ix proposed)
set_owners_and_change_threshold-Returns_example =
    set_owners_and_change_threshold-Returns machine program_id change_accounts both_ix proposed
      proposed_sizes (omega arith)
