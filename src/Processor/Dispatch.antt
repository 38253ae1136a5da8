-- ===== src/Processor/Dispatch.antt =====
-- What reaches the instructions through `process_instruction` (program/src/processor.rs).
use multisig_native.Base.{ℕ, ◌≡◌, ◌≢◌, List, inl, inr, Option-cases}
use multisig_native.Errors.{ok, err, invalid_instruction_data}
use multisig_native.Sdk.{Pubkey, AccountInfo, Store, Runtime}
use multisig_native.Sdk.Slices
use multisig_native.Processor.Encodings.{MultisigInstruction, IsInstruction, instruction_codec}
use multisig_native.Processor.{dispatch, process_instruction}

module _ (rt : Runtime) (program_id : Pubkey) (accounts : List AccountInfo) where
  -- The bytes that ask for an instruction.
  abbrev pub instruction_bytes : MultisigInstruction → List ℕ
  instruction_bytes ix = (instruction_codec rt.borsh).write ix

  -- On the bytes of an instruction whose fields are values of their types, process_instruction
  -- does what that instruction does.
  pub process_instruction-instruction_bytes :
      (ix : MultisigInstruction) (s : Store)
      → IsInstruction ix
      → process_instruction rt program_id accounts (instruction_bytes ix) s
        ≡ dispatch rt program_id accounts ix s
  unfolding process_instruction
  process_instruction-instruction_bytes ix s fits =
      rw (Slices.try_from_slice-write rt.borsh (instruction_codec rt.borsh) ix fits)

  -- On data that is the encoding of no instruction, process_instruction returns
  -- InvalidInstructionData.
  pub process_instruction_malformed :
      (bytes : List ℕ) (s : Store)
      → ((ix : MultisigInstruction) → IsInstruction ix → bytes ≢ instruction_bytes ix)
      → process_instruction rt program_id accounts bytes s ≡ err invalid_instruction_data
  unfolding process_instruction
  process_instruction_malformed bytes s no_instruction =
      elim (Option-cases (rt.borsh.try_from_slice (instruction_codec rt.borsh) bytes)) [
        | inl e ↦ rw e
        | inr (ix, e) ↦
            let (whole, fits) =
              Slices.write_of_try_from_slice rt.borsh (instruction_codec rt.borsh) bytes ix e in
            absurd (no_instruction ix fits whole)
      ]

  -- If process_instruction succeeds, then the data was the whole encoding of an instruction with
  -- fields of their types, and that instruction succeeded with the same result.
  pub process_instruction-ok :
      (bytes : List ℕ) (s t : Store)
      → process_instruction rt program_id accounts bytes s ≡ ok t
      → (ix : MultisigInstruction) × IsInstruction ix
        × (bytes ≡ instruction_bytes ix)
        × (dispatch rt program_id accounts ix s ≡ ok t)
  unfolding process_instruction
  process_instruction-ok bytes s t h =
      elim (Option-cases (rt.borsh.try_from_slice (instruction_codec rt.borsh) bytes)) [
        | inl e ↦ absurd (cc (rw e at h))
        | inr (ix, e) ↦
            let (whole, fits) =
              Slices.write_of_try_from_slice rt.borsh (instruction_codec rt.borsh) bytes ix e in
            (ix, fits, whole, rw e at h)
      ]
