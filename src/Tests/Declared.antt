-- ===== src/Tests/Declared.antt =====
-- The theorems about the declared accounts, at calls of the scenario.
use multisig_native.Base.{refl, true, false}
use multisig_native.Processor.{approve_transaction_ix}
use multisig_native.Processor.Declared.{declared, HasSigned, dispatch-HasSigned}
use multisig_native.Tests.Machine.{machine}
use multisig_native.Tests.Scenario.{program, program_id, proposed, approve_accounts, approved}
use multisig_native.Tests.Calls.{proposed_sizes}

dispatch-HasSigned_example : HasSigned approve_accounts 2
unfolding program approved declared
dispatch-HasSigned_example =
    dispatch-HasSigned machine program_id approve_accounts proposed approved proposed_sizes
      approve_transaction_ix 2 tt tt (record { signer = true; writable = false }, refl, refl) refl
