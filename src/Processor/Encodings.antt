-- ===== src/Processor/Encodings.antt =====
-- The encodings of the instructions, as they are derived from `MultisigInstruction`
-- (program/src/processor.rs) and from the structs of its variants.
use multisig_native.Base.{ℕ, ◌+◌, ◌≡◌, refl, ◌⊎◌, inl, inr, List, sum_of, arith}
use multisig_native.Sdk.{
  Encoding, both, struct, restate, Borsh, IsU8, IsKey, IsVec, Pubkey, no_fields, first, last, enum,
}
use multisig_native.State.InstructionData.{
  TransactionInstructionData, IsInstructionData, instruction_data_codec,
}
use multisig_native.State.InstructionData
use multisig_native.Instructions.CreateMultisig.{CreateMultisigInstruction}
use multisig_native.Instructions.SetOwners.{SetOwnersInstruction}
use multisig_native.Instructions.ChangeThreshold.{ChangeThresholdInstruction}
use multisig_native.Instructions.SetOwnersAndChangeThreshold.{
  SetOwnersAndChangeThresholdInstruction,
}
use multisig_native.Instructions.ProposeTransaction.{ProposeTransactionInstruction}

-- The source's variants, in its order.
pub data MultisigInstruction : Type 0 where
  create_multisig_ix : CreateMultisigInstruction → MultisigInstruction
  set_owners_ix : SetOwnersInstruction → MultisigInstruction
  change_threshold_ix : ChangeThresholdInstruction → MultisigInstruction
  set_owners_and_change_threshold_ix : SetOwnersAndChangeThresholdInstruction → MultisigInstruction
  propose_transaction_ix : ProposeTransactionInstruction → MultisigInstruction
  approve_transaction_ix : MultisigInstruction
  execute_transaction_ix : MultisigInstruction
  cancel_transaction_ix : MultisigInstruction

-- The fields hold values of their types.
abbrev pub IsInstruction : MultisigInstruction → Type 0
IsInstruction (create_multisig_ix d) = IsVec IsKey d.owners × (IsU8 d.threshold × IsU8 d.nonce)
IsInstruction (set_owners_ix d) = IsVec IsKey d.owners
IsInstruction (change_threshold_ix d) = IsU8 d.threshold
IsInstruction (set_owners_and_change_threshold_ix d) = IsVec IsKey d.owners × IsU8 d.threshold
IsInstruction (propose_transaction_ix d) = IsVec IsInstructionData d.instructions
IsInstruction approve_transaction_ix = Unit
IsInstruction execute_transaction_ix = Unit
IsInstruction cancel_transaction_ix = Unit

-- The length of an instruction's encoding.
abbrev pub size : MultisigInstruction → ℕ
size (create_multisig_ix d) = 1 + ((4 + sum_of (λ _. 32) d.owners) + (1 + 1))
size (set_owners_ix d) = 1 + (4 + sum_of (λ _. 32) d.owners)
size (change_threshold_ix d) = 2
size (set_owners_and_change_threshold_ix d) = 1 + ((4 + sum_of (λ _. 32) d.owners) + 1)
size (propose_transaction_ix d) = 1 + (4 + sum_of InstructionData.len d.instructions)
size approve_transaction_ix = 1
size execute_transaction_ix = 1
size cancel_transaction_ix = 1

-- The enum as a sum of what its variants hold.
abbrev Owners : Type 0
Owners = List Pubkey

abbrev Sum : Type 0
Sum =
    (Owners × (ℕ × ℕ))
    ⊎ (Owners
        ⊎ (ℕ
            ⊎ ((Owners × ℕ)
                ⊎ (List TransactionInstructionData ⊎ (Unit {0} ⊎ (Unit {0} ⊎ Unit {0}))))))

abbrev of_sum : Sum → MultisigInstruction
of_sum (inl (owners, (threshold, nonce))) =
    create_multisig_ix (record { owners = owners; threshold = threshold; nonce = nonce })
of_sum (inr (inl owners)) = set_owners_ix (record { owners = owners })
of_sum (inr (inr (inl threshold))) = change_threshold_ix (record { threshold = threshold })
of_sum (inr (inr (inr (inl (owners, threshold))))) =
    set_owners_and_change_threshold_ix (record { owners = owners; threshold = threshold })
of_sum (inr (inr (inr (inr (inl instructions))))) =
    propose_transaction_ix (record { instructions = instructions })
of_sum (inr (inr (inr (inr (inr (inl u)))))) = approve_transaction_ix
of_sum (inr (inr (inr (inr (inr (inr (inl u))))))) = execute_transaction_ix
of_sum (inr (inr (inr (inr (inr (inr (inr u))))))) = cancel_transaction_ix

abbrev to_sum : MultisigInstruction → Sum
to_sum (create_multisig_ix d) = inl (d.owners, (d.threshold, d.nonce))
to_sum (set_owners_ix d) = inr (inl d.owners)
to_sum (change_threshold_ix d) = inr (inr (inl d.threshold))
to_sum (set_owners_and_change_threshold_ix d) = inr (inr (inr (inl (d.owners, d.threshold))))
to_sum (propose_transaction_ix d) = inr (inr (inr (inr (inl d.instructions))))
to_sum approve_transaction_ix = inr (inr (inr (inr (inr (inl tt)))))
to_sum execute_transaction_ix = inr (inr (inr (inr (inr (inr (inl tt))))))
to_sum cancel_transaction_ix = inr (inr (inr (inr (inr (inr (inr tt))))))

of_sum-to_sum : (ix : MultisigInstruction) → of_sum (to_sum ix) ≡ ix
of_sum-to_sum (create_multisig_ix d) = refl
of_sum-to_sum _ = refl

to_sum-of_sum : (v : Sum) → to_sum (of_sum v) ≡ v
to_sum-of_sum (inl v) = refl
to_sum-of_sum (inr (inl v)) = refl
to_sum-of_sum (inr (inr (inl v))) = refl
to_sum-of_sum (inr (inr (inr (inl v)))) = refl
to_sum-of_sum (inr (inr (inr (inr (inl v))))) = refl
to_sum-of_sum (inr (inr (inr (inr (inr (inl v)))))) = refl
to_sum-of_sum (inr (inr (inr (inr (inr (inr (inl v))))))) = refl
to_sum-of_sum (inr (inr (inr (inr (inr (inr (inr v))))))) = refl

module _ (b : Borsh) where
  abbrev owners_codec : Encoding (IsVec IsKey) (λ xs. 4 + sum_of (λ _. 32) xs)
  owners_codec = b.vec b.pubkey

  unfoldable pub instruction_codec : Encoding IsInstruction size
  unfolding of_sum-to_sum to_sum-of_sum
  instruction_codec =
      restate
        (elim [
          | create_multisig_ix d ↦ λ h. h
          | set_owners_ix d ↦ λ h. h
          | change_threshold_ix d ↦ λ h. h
          | set_owners_and_change_threshold_ix d ↦ λ h. h
          | propose_transaction_ix d ↦ λ h. h
          | approve_transaction_ix ↦ λ h. h
          | execute_transaction_ix ↦ λ h. h
          | cancel_transaction_ix ↦ λ h. h
        ])
        (elim [
          | create_multisig_ix d ↦ λ h. h
          | set_owners_ix d ↦ λ h. h
          | change_threshold_ix d ↦ λ h. h
          | set_owners_and_change_threshold_ix d ↦ λ h. h
          | propose_transaction_ix d ↦ λ h. h
          | approve_transaction_ix ↦ λ h. h
          | execute_transaction_ix ↦ λ h. h
          | cancel_transaction_ix ↦ λ h. h
        ])
        (elim [
          | create_multisig_ix d ↦ refl
          | set_owners_ix d ↦ refl
          | change_threshold_ix d ↦ refl
          | set_owners_and_change_threshold_ix d ↦ refl
          | propose_transaction_ix d ↦ refl
          | approve_transaction_ix ↦ refl
          | execute_transaction_ix ↦ refl
          | cancel_transaction_ix ↦ refl
        ])
        (struct of_sum to_sum of_sum-to_sum to_sum-of_sum (
          enum b.u8 (
            first 0 (omega arith) (both owners_codec (both b.u8 b.u8)) (
              first 1 (omega arith) owners_codec (
                first 2 (omega arith) b.u8 (
                  first 3 (omega arith) (both owners_codec b.u8) (
                    first 4 (omega arith) (b.vec (instruction_data_codec b)) (
                      first 5 (omega arith) no_fields
                        (first 6 (omega arith) no_fields (last 7 (omega arith) no_fields))))))))))
