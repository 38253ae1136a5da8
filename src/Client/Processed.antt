-- ===== src/Client/Processed.antt =====
-- The client's instructions (ts/instructions) as the program takes them: their data, and the
-- flags of their accounts against the `#[account]` attributes of program/src/processor.rs.
use multisig_native.Base.{
  ℕ, zero, suc, ◌<◌, ◌≡◌, ◌≢◌, ◌∙◌, refl, ap, true, false, List, [], ◌∷◌, ◌++◌, map, Option, none,
  some, length, position, get_elem?, arith,
}
use multisig_native.Errors.{ok}
use multisig_native.Sdk.{Pubkey, AccountInfo, AccountMeta, Store, Runtime}
use multisig_native.State.MultisigAccount.{Multisig}
use multisig_native.State.TransactionAccount.{Transaction}
use multisig_native.State.Stored.{transaction_bytes}
use multisig_native.State.Saved.{HoldsMultisig, HoldsTransaction, with_bytes, with_vote}
use multisig_native.Instructions.ApproveTransaction.Approved.{approve_transaction_succeeds}
use multisig_native.Processor.{IsInstruction, dispatch, process_instruction}
use multisig_native.Processor.Dispatch.{process_instruction-instruction_bytes}
use multisig_native.Processor.Declared.{Declared, declared}
use multisig_native.Client.Packages.{Packages, TransactionInstruction}
use multisig_native.Client.Instructions.{
  with_data, meta, create_create_multisig_instruction, create_set_owners_instruction,
  create_change_threshold_instruction, create_set_owners_and_change_threshold_instruction,
  create_propose_transaction_instruction, create_approve_transaction_instruction,
  create_execute_transaction_instruction, create_cancel_transaction_instruction,
}
use multisig_native.Client.Requests.{
  Request, create_multisig, set_owners, change_threshold, set_owners_and_change_threshold,
  propose_transaction, approve_transaction, execute_transaction, cancel_transaction, build, meant,
}
use multisig_native.Client.Written.{build-IsBuilt}

-- The flags of an account.
abbrev pub flags : AccountMeta → Declared
flags key = record { signer = key.is_signer; writable = key.is_writable }

-- An account as the program is given it, with the flags that the instruction asks for.
abbrev pub info_of : AccountMeta → AccountInfo
info_of key = record { key = key.pubkey; is_signer = key.is_signer; is_writable = key.is_writable }

-- The accounts that a request names itself, past those of the instruction.
abbrev pub remaining : Request → List AccountMeta
remaining (execute_transaction account signer transaction refundee executor accounts program_id) =
    accounts
remaining _ = []

-- The flags that a caller chooses are those that the program asks for.
abbrev pub IsUsual : Request → Type 0
IsUsual (propose_transaction account transaction proposer payer program_id ixs signed system) =
    signed ≡ true
IsUsual (approve_transaction account transaction approver program_id signed writable) =
    (signed ≡ true) × (writable ≡ true)
IsUsual _ = Unit

abbrev pub IsProposal : Request → Type 0
IsProposal (propose_transaction account transaction proposer payer program_id ixs signed system) =
    Unit
IsProposal _ = ⊥

pub with_data-parts :
    (keys : List AccountMeta) (program_id : Pubkey) (o : Option (List ℕ))
    (ix : TransactionInstruction)
    → with_data keys program_id o ≡ some ix
    → (ix.keys ≡ keys) × (ix.program_id ≡ program_id)
with_data-parts keys program_id none ix h = cc
with_data-parts keys program_id (some bytes) ix h = ground arith

get_elem?-but_third :
    (a b c c' d d' e : Declared)
    → c ≡ c'
    → (i : ℕ) → i ≢ 3
    → get_elem? (a ∷ b ∷ c ∷ d ∷ e ∷ []) i ≡ get_elem? (a ∷ b ∷ c' ∷ d' ∷ e ∷ []) i
get_elem?-but_third a b c c' d d' e h zero ne = refl
get_elem?-but_third a b c c' d d' e h (suc zero) ne = refl
get_elem?-but_third a b c c' d d' e h (suc (suc zero)) ne = ap some h
get_elem?-but_third a b c c' d d' e h (suc (suc (suc zero))) ne = absurd (ne refl)
get_elem?-but_third a b c c' d d' e h (suc (suc (suc (suc i)))) ne = refl

module _ (js : Packages) where
  -- The accounts of each of the client's instructions but a proposal have exactly the signer and
  -- writable flags that the program declares for them, in the same order, followed by the
  -- accounts that the caller adds to an execution. An approval is asked for as a signer and with
  -- a writable transaction.
  pub build-declared :
      (r : Request) (ix : TransactionInstruction)
      → IsUsual r
      → ¬ (IsProposal r)
      → build js r ≡ some ix
      → map flags ix.keys ≡ declared (meant r) ++ map flags (remaining r)
  unfolding build meant declared create_create_multisig_instruction create_set_owners_instruction
      create_change_threshold_instruction create_set_owners_and_change_threshold_instruction
      create_approve_transaction_instruction create_execute_transaction_instruction
      create_cancel_transaction_instruction
  build-declared (create_multisig program_id threshold owners nonce account signer payer system) ix
        u p h =
      rw (with_data-parts _ _ _ ix h).0 refl
  build-declared (set_owners signer account owners program_id) ix u p h =
      rw (with_data-parts _ _ _ ix h).0 refl
  build-declared (change_threshold signer account threshold program_id) ix u p h =
      rw (with_data-parts _ _ _ ix h).0 refl
  build-declared (set_owners_and_change_threshold signer account owners threshold program_id) ix u p
        h =
      rw (with_data-parts _ _ _ ix h).0 refl
  build-declared
        (propose_transaction account transaction proposer payer program_id ixs signed system) ix u p
        h =
      absurd (p tt)
  build-declared (approve_transaction account transaction approver program_id signed writable) ix u
        p h =
      rw ((with_data-parts _ _ _ ix h).0, u.0, u.1) refl
  build-declared
        (execute_transaction account signer transaction refundee executor accounts program_id) ix u
        p h =
      rw (with_data-parts _ _ _ ix h).0 refl
  build-declared (cancel_transaction account transaction refundee executor program_id) ix u p h =
      rw (with_data-parts _ _ _ ix h).0 refl

  -- The accounts of the client's proposal are as many as the program declares, and have the
  -- declared flags, all but the payer: it is a signer that is not writable, where the program
  -- declares a writable signer. The proposer is asked for as a signer.
  pub build-declared_proposal :
      (r : Request) (ix : TransactionInstruction)
      → IsUsual r
      → IsProposal r
      → build js r ≡ some ix
      → (length ix.keys ≡ length (declared (meant r)))
        × ((i : ℕ) → i ≢ 3 → get_elem? (map flags ix.keys) i ≡ get_elem? (declared (meant r)) i)
        × (get_elem? (map flags ix.keys) 3 ≡ some (record { signer = true; writable = false }))
        × (get_elem? (declared (meant r)) 3 ≡ some (record { signer = true; writable = true }))
  unfolding build meant declared create_propose_transaction_instruction
  build-declared_proposal
        (propose_transaction account transaction proposer payer program_id ixs signed system) ix u p
        h =
      rw (with_data-parts _ _ _ ix h).0 (
        refl,
        get_elem?-but_third _ _ _ _ _ _ _ (ap (λ v. record { signer = v; writable = false }) u),
        refl,
        refl,
      )
  build-declared_proposal _ ix u p h = absurd p

module _ (rt : Runtime) (js : Packages) where
  -- Each of the client's eight functions returns an instruction, if the arguments are of their
  -- types, and on its data process_instruction does exactly what the instruction that is meant
  -- does with these arguments, whatever the accounts and the store are.
  pub build-process_instruction :
      (r : Request)
      → IsInstruction (meant r)
      → (ix : TransactionInstruction) × (build js r ≡ some ix)
        × ((program_id : Pubkey) (accounts : List AccountInfo) (s : Store)
            → process_instruction rt program_id accounts ix.bytes s
              ≡ dispatch rt program_id accounts (meant r) s)
  build-process_instruction r fits =
      let (ix, built, written) = build-IsBuilt rt.borsh js r fits in
      (
        ix,
        built,
        λ program_id accounts s.
            rw written
              (process_instruction-instruction_bytes rt program_id accounts (meant r) s fits),
      )

  -- The keys of an approval's accounts.
  approval_keys :
      (account transaction approver program_id : Pubkey) (ix : TransactionInstruction)
      → build js (approve_transaction account transaction approver program_id true true) ≡ some ix
      → (ix.keys
          ≡ meta account false false ∷ meta transaction false true ∷ meta approver true false ∷ [])
        × (ix.program_id ≡ program_id)
  unfolding build create_approve_transaction_instruction
  approval_keys account transaction approver program_id ix h = with_data-parts _ _ _ ix h

  -- The approval that the client makes, given to the program with the accounts and flags that it
  -- names, writes exactly the transaction with the approver's vote: if the accounts hold a
  -- multisig and a transaction of the program, the transaction is of that multisig and of its
  -- present owners, and the approver's position among them is one of the votes.
  pub build-approve_transaction :
      (account transaction approver program_id : Pubkey) (m : Multisig) (t : Transaction) (i : ℕ)
      (s : Store)
      → HoldsMultisig rt s account m
      → HoldsTransaction rt s transaction t
      → (s account).owner ≡ program_id
      → (s transaction).owner ≡ program_id
      → t.multisig ≡ account
      → t.owner_set_seqno ≡ m.owner_set_seqno
      → position m.owners approver ≡ some i
      → i < length t.signers
      → (ix : TransactionInstruction) × (build js
            (approve_transaction account transaction approver program_id true true)
          ≡ some ix)
        × (process_instruction rt ix.program_id (map info_of ix.keys) ix.bytes s
            ≡ ok (with_bytes s transaction (transaction_bytes rt.borsh (with_vote t i))))
  unfolding meant dispatch
  build-approve_transaction account transaction approver program_id m t i s hm ht own own' belongs
        current found within =
      let r = approve_transaction account transaction approver program_id true true in
      let (ix, built, runs) = build-process_instruction r tt in
      let (keys, program) = approval_keys account transaction approver program_id ix built in
      (
        ix,
        built,
        rw (keys, program)
            (runs program_id _ s
              ∙ approve_transaction_succeeds rt program_id _ _ _ [] m t i s hm ht
                  (record {
                    multisig_owned = own;
                    transaction_owned = own';
                    same_owners = current;
                    signed = refl;
                    writable = refl;
                    belongs = belongs;
                  })
                  found within),
      )
