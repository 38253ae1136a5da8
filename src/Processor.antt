-- ===== src/Processor.antt =====
-- program/src/processor.rs: the instructions' encoding, and the entry point.
mod Encodings
pub mod Dispatch
pub mod Declared
unfoldable pub use Encodings.*
use multisig_native.Base.{ℕ, List, Option, none, some}
use multisig_native.Errors.{Result, err, invalid_instruction_data}
use multisig_native.Sdk.{Pubkey, AccountInfo, Store, Runtime}
use multisig_native.Instructions.CreateMultisig.{create_multisig}
use multisig_native.Instructions.SetOwners.{set_owners}
use multisig_native.Instructions.ChangeThreshold.{change_threshold}
use multisig_native.Instructions.SetOwnersAndChangeThreshold.{set_owners_and_change_threshold}
use multisig_native.Instructions.ProposeTransaction.{propose_transaction}
use multisig_native.Instructions.ApproveTransaction.{approve_transaction}
use multisig_native.Instructions.ExecuteTransaction.{execute_transaction}
use multisig_native.Instructions.CancelTransaction.{cancel_transaction}

module _ (rt : Runtime) (program_id : Pubkey) (accounts : List AccountInfo) where
  -- The `match` on the instruction.
  unfoldable pub dispatch : MultisigInstruction → Store → Result Store
  dispatch (create_multisig_ix data_of) s = create_multisig rt program_id accounts data_of s
  dispatch (set_owners_ix data_of) s = set_owners rt program_id accounts data_of s
  dispatch (change_threshold_ix data_of) s = change_threshold rt program_id accounts data_of s
  dispatch (set_owners_and_change_threshold_ix data_of) s =
      set_owners_and_change_threshold rt program_id accounts data_of s
  dispatch (propose_transaction_ix data_of) s = propose_transaction rt program_id accounts data_of s
  dispatch approve_transaction_ix s = approve_transaction rt program_id accounts s
  dispatch execute_transaction_ix s = execute_transaction rt program_id accounts s
  dispatch cancel_transaction_ix s = cancel_transaction rt program_id accounts s

  dispatch_decoded : Option MultisigInstruction → Store → Result Store
  unfolding dispatch
  dispatch_decoded (some ix) s = dispatch ix s
  dispatch_decoded none s = err invalid_instruction_data

  unfoldable pub process_instruction : List ℕ → Store → Result Store
  unfolding dispatch_decoded
  process_instruction bytes s =
      dispatch_decoded (rt.borsh.try_from_slice (instruction_codec rt.borsh) bytes) s
