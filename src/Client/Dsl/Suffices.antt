-- ===== src/Client/Dsl/Suffices.antt =====
-- The accounts with which the client executes a transaction (ts/multisigDsl.ts), against what the
-- program passes on to the instructions of the transaction
-- (program/src/instructions/execute_transaction.rs).
use multisig_native.Base.{
  HasItem, HasItem-map, map-HasItem, HasItem-append_left, HasItem-append_right, HasItem-flat_map,
  ◌≡◌, refl, true, false, ◌||◌, List, [], ◌∷◌, ◌++◌, map, map-map, flat_map, some, ◌==◌, ==_iff,
  Bool-cases, ◌⊎◌, inl, inr, arith,
}
use multisig_native.Sdk.{Pubkey, AccountInfo, AccountMeta, Instruction, Runtime}
use multisig_native.Instructions.ExecuteTransaction.{signed_instruction}
use multisig_native.Instructions.ExecuteTransaction.Executed.{signed_instruction_lem, passed}
use multisig_native.Client.Packages.{Packages, TransactionInstruction}
use multisig_native.Client.Instructions.{meta, create_execute_transaction_instruction}
use multisig_native.Client.Requests.{execute_transaction, build, meant, account_of, data_of}
use multisig_native.Client.Written.{build-IsBuilt}
use multisig_native.Client.Processed.{info_of, with_data-parts}
use multisig_native.Client.Dsl.{
  MetaObject, signer_first, writable_first, meta_of, Json, without_signature, accounts_of, deduped,
  execute_transaction_with_multiple_instructions,
}
use multisig_native.Client.Dsl.Deduped.{deduped_lem}

-- The keys that every execution names.
abbrev named : Pubkey → Pubkey → Pubkey → Pubkey → Pubkey → List AccountMeta
named account signer transaction refundee executor =
    meta account false false
    ∷ meta signer false false
    ∷ meta transaction false true
    ∷ meta refundee false true
    ∷ meta executor true false
    ∷ []

-- What an invoked instruction asks of the accounts of its caller: its program is one of them, and
-- so is each of its accounts, with the same right to write; an account that it takes as a signer
-- has signed, or is the address for which the caller signs.
pub record Suffices (accounts : List AccountInfo) (signer_key : Pubkey) (ix : Instruction)
    : Type 0 where
  pub program : (a : AccountInfo) × HasItem accounts a × (a.key ≡ ix.program_id)
  pub given :
      (m : AccountMeta)
      → HasItem ix.accounts m
      → (a : AccountInfo) × HasItem accounts a
        × (a.key ≡ m.pubkey)
        × (a.is_writable ≡ m.is_writable)
        × (m.is_signer ≡ true → (a.is_signer ≡ true) ⊎ (m.pubkey ≡ signer_key))

module _ (rt : Runtime) (js : Packages) (json : Json) where
  -- An account object of an instruction is among those that are sent.
  listed :
      (five : List AccountMeta) (multisig_signer : Pubkey) (ixs : List TransactionInstruction)
      (ix : TransactionInstruction) (o : MetaObject)
      → HasItem ixs ix
      → HasItem (accounts_of multisig_signer ix) o
      → HasItem
          (map info_of
            (five ++ map meta_of (deduped json (flat_map (accounts_of multisig_signer) ixs))))
          (info_of (meta_of o))
  listed five multisig_signer ixs ix o one object =
      let all = flat_map (accounts_of multisig_signer) ixs in
      let there = HasItem-flat_map (accounts_of multisig_signer) ixs ix o one object in
      let left = ((deduped_lem json all).0 o).0 there in
      let last = HasItem-map meta_of (deduped json all) o left in
      HasItem-map info_of (five ++ map meta_of (deduped json all)) (meta_of o)
        (HasItem-append_right five (map meta_of (deduped json all)) (meta_of o) last)

  -- How a signature is asked for after it has been taken from the objects.
  without_signature_lem :
      (signer_key : Pubkey) (key : AccountMeta)
      → ((without_signature signer_key key).pubkey ≡ key.pubkey)
        × ((without_signature signer_key key).is_writable ≡ key.is_writable)
        × ((key.is_signer || key.pubkey == signer_key) ≡ true
            → ((without_signature signer_key key).is_signer ≡ true) ⊎ (key.pubkey ≡ signer_key))
  unfolding without_signature
  without_signature_lem signer_key key = elim (Bool-cases (key.pubkey == signer_key)) [
    | inl e ↦ (ground arith, ground arith, λ h. inr ((==_iff key.pubkey signer_key).0 e))
    | inr e ↦ (ground arith, ground arith, λ h. inl (ground arith))
  ]

  listed-Suffices :
      (five : List AccountMeta) (multisig_signer : Pubkey) (ixs : List TransactionInstruction)
      (ix : TransactionInstruction)
      → HasItem ixs ix
      → Suffices
          (map info_of
            (five ++ map meta_of (deduped json (flat_map (accounts_of multisig_signer) ixs))))
          multisig_signer
          (signed_instruction rt multisig_signer (data_of ix))
  unfolding accounts_of
  listed-Suffices five multisig_signer ixs ix one =
      let object_of = λ (m : AccountMeta). signer_first (without_signature multisig_signer m) in
      rw (signed_instruction_lem rt multisig_signer (data_of ix)) (record {
        program =
            let o = writable_first (meta ix.program_id false false) in
            (
              info_of (meta_of o),
              listed five multisig_signer ixs ix o one
                  (HasItem-append_right (map object_of ix.keys) (o ∷ []) o (0, refl)),
              refl,
            );
        given = λ m h.
            let (key, at, e) =
              map-HasItem (λ key. passed rt multisig_signer (account_of key)) ix.keys m
                (rw (map-map (passed rt multisig_signer) account_of ix.keys) at h) in
            let o = signer_first (without_signature multisig_signer key) in
            let (pubkey, writable, signed) = without_signature_lem multisig_signer key in
            let object =
              HasItem-append_left (map object_of ix.keys)
                (writable_first (meta ix.program_id false false) ∷ []) o
                (HasItem-map object_of ix.keys key at) in
            rw (← e) (
              info_of (meta_of o),
              listed five multisig_signer ixs ix o one object,
              pubkey,
              writable,
              signed,
            );
      })

  -- The instruction is made, with these keys.
  execution_keys :
      (account signer transaction refundee executor : Pubkey) (accounts : List AccountMeta)
      (program_id : Pubkey)
      → (sent : TransactionInstruction) × (create_execute_transaction_instruction js account signer
            transaction refundee executor accounts program_id
          ≡ some sent)
        × (sent.keys ≡ named account signer transaction refundee executor ++ accounts)
  unfolding build meant create_execute_transaction_instruction
  execution_keys account signer transaction refundee executor accounts program_id =
      let r =
        execute_transaction account signer transaction refundee executor accounts program_id in
      let (sent, built, written) = build-IsBuilt rt.borsh js r tt in
      (sent, built, (with_data-parts _ _ _ sent built).0)

  -- The client's execution of a list of instructions is made, and its accounts suffice for each
  -- instruction that the program invokes for one of the list: the instruction's program is among
  -- them, and so is each of its accounts, with the same right to write; an account that is taken
  -- as a signer has signed, or is the multisig's signer, for which the program signs.
  pub execute_transaction_with_multiple_instructions-Suffices :
      (program_id tx_account : Pubkey) (ixs : List TransactionInstruction)
      (multisig_signer multisig_address executor refundee : Pubkey)
      → (sent : TransactionInstruction) × (execute_transaction_with_multiple_instructions json js
            program_id tx_account ixs multisig_signer multisig_address executor refundee
          ≡ some sent)
        × ((ix : TransactionInstruction)
            → HasItem ixs ix
            → Suffices
                (map info_of sent.keys)
                multisig_signer
                (signed_instruction rt multisig_signer (data_of ix)))
  unfolding execute_transaction_with_multiple_instructions
  execute_transaction_with_multiple_instructions-Suffices program_id tx_account ixs multisig_signer
        multisig_address executor refundee =
      let accounts = map meta_of (deduped json (flat_map (accounts_of multisig_signer) ixs)) in
      let (sent, built, keys) =
        execution_keys multisig_address multisig_signer tx_account refundee executor accounts
          program_id in
      (
        sent,
        built,
        λ ix one. rw keys (
            listed-Suffices (named multisig_address multisig_signer tx_account refundee executor)
              multisig_signer ixs ix one),
      )
