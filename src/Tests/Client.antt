-- ===== src/Tests/Client.antt =====
-- The client's instructions and reads, with the packages of `Tests.Packages`.
use multisig_native.Base.{
  ℕ, ◌≡◌, refl, true, false, List, [], ◌∷◌, ◌++◌, map, some, length, get_elem?, arith, ◌≢◌,
}
use multisig_native.Errors.{ok}
use multisig_native.Sdk.{Pubkey, AccountInfo, Store, little_endian}
use multisig_native.State.MultisigAccount.{Multisig}
use multisig_native.State.MultisigAccount
use multisig_native.State.TransactionAccount.{Transaction}
use multisig_native.State.TransactionAccount
use multisig_native.State.Stored.{transaction_bytes}
use multisig_native.State.Saved.{with_bytes}
use multisig_native.Processor.{dispatch, process_instruction}
use multisig_native.Processor.Dispatch.{instruction_bytes}
use multisig_native.Processor.Declared.{declared}
use multisig_native.Client.Packages.{TransactionInstruction}
use multisig_native.Client.Requests.{
  Request, set_owners, propose_transaction, approve_transaction, execute_transaction, build, meant,
}
use multisig_native.Client.Instructions.{
  create_propose_transaction_instruction, propose_transaction_schema, instruction_schema,
  account_schema, propose_transaction_to_buffer, instruction_object, account_object,
  create_execute_transaction_instruction, execute_transaction_schema, execute_transaction_to_buffer,
  meta,
}
use multisig_native.Client.Js.{assignable, assign_each}
use multisig_native.Client.Discriminator.{discriminator}
use multisig_native.Client.Processed.{
  flags, info_of, remaining, build-process_instruction, build-declared, build-declared_proposal,
  build-approve_transaction,
}
use multisig_native.Client.State.{deserialize_multisig, deserialize_transaction}
use multisig_native.Client.State.Reads.{
  multisig_value, transaction_value, deserialize-checked_deserialize,
}
use multisig_native.Tests.Packages.{packages, serialize}
use multisig_native.Tests.Machine.{machine, borsh}
use multisig_native.Tests.Scenario.{vault, vault_signer, program, program_id, proposed}
use multisig_native.Tests.Calls.{three_owners, transfer_votes}

abbrev change : Request
change = set_owners vault_signer vault (2 ∷ 3 ∷ []) program_id

build-process_instruction_example :
    (ix : TransactionInstruction) × (build packages change ≡ some ix)
    × ((id : Pubkey) (accounts : List AccountInfo) (s : Store)
        → process_instruction machine id accounts ix.bytes s
          ≡ dispatch machine id accounts (meant change) s)
unfolding meant
build-process_instruction_example =
    build-process_instruction machine packages change
      (omega arith, (omega arith, (omega arith, tt)))

-- Running the client.
unfoldable client : Unit {0}
unfolding build assignable assign_each discriminator serialize little_endian
    create_propose_transaction_instruction propose_transaction_schema instruction_schema
    account_schema propose_transaction_to_buffer instruction_object account_object
    create_execute_transaction_instruction execute_transaction_schema execute_transaction_to_buffer
client = tt

abbrev execute : Request
execute =
    execute_transaction vault vault_signer 20 30 3 (meta 40 false true ∷ meta 0 false false ∷ [])
      program_id

abbrev execute_sent : TransactionInstruction
execute_sent = record {
  keys =
      meta vault false false
      ∷ meta vault_signer false false
      ∷ meta 20 false true
      ∷ meta 30 false true
      ∷ meta 3 true false
      ∷ meta 40 false true
      ∷ meta 0 false false
      ∷ [];
  program_id = program_id;
  bytes = 6 ∷ [];
}

execute_built : build packages execute ≡ some execute_sent
unfolding client
execute_built = refl

build-declared_example :
    map flags execute_sent.keys ≡ declared (meant execute) ++ map flags (remaining execute)
build-declared_example = build-declared packages execute execute_sent tt (λ p. p) execute_built

-- A transfer from the multisig's address, proposed by its first owner.
abbrev client_transfer : TransactionInstruction
client_transfer = record {
  keys = meta vault_signer false true ∷ meta 40 false true ∷ [];
  program_id = 0;
  bytes = 5 ∷ [];
}

abbrev proposal : Request
proposal = propose_transaction vault 20 1 30 program_id (client_transfer ∷ []) true 0

unfoldable proposal_bytes : List ℕ
unfolding program
proposal_bytes = instruction_bytes machine program_id [] (meant proposal)

abbrev proposal_sent : List ℕ → TransactionInstruction
proposal_sent bytes = record {
  keys =
      meta vault false false
      ∷ meta 20 true true
      ∷ meta 1 true false
      ∷ meta 30 true false
      ∷ meta 0 false false
      ∷ [];
  program_id = program_id;
  bytes = bytes;
}

proposal_built : build packages proposal ≡ some (proposal_sent proposal_bytes)
unfolding client proposal_bytes program meant
proposal_built = refl

build-declared_proposal_example :
    (length (proposal_sent proposal_bytes).keys ≡ length (declared (meant proposal)))
    × ((i : ℕ)
        → i ≢ 3
        → get_elem? (map flags (proposal_sent proposal_bytes).keys) i
          ≡ get_elem? (declared (meant proposal)) i)
    × (get_elem? (map flags (proposal_sent proposal_bytes).keys) 3
        ≡ some (record { signer = true; writable = false }))
    × (get_elem? (declared (meant proposal)) 3 ≡ some (record { signer = true; writable = true }))
build-declared_proposal_example =
    build-declared_proposal packages proposal (proposal_sent proposal_bytes) refl tt proposal_built

build-approve_transaction_example :
    (ix : TransactionInstruction) × (build packages
        (approve_transaction vault 20 2 program_id true true)
      ≡ some ix)
    × (process_instruction machine ix.program_id (map info_of ix.keys) ix.bytes proposed
        ≡ ok (
            with_bytes proposed 20
              (transaction_bytes borsh (transfer_votes (true ∷ true ∷ false ∷ [])))))
unfolding program proposed
build-approve_transaction_example =
    build-approve_transaction machine packages vault 20 2 program_id three_owners
      (transfer_votes (true ∷ false ∷ false ∷ [])) 1 proposed refl refl refl refl refl refl refl
      (omega arith)

-- What the client reads of the two accounts after the proposal.
deserialize-checked_deserialize_example :
    ((m : Multisig)
      → MultisigAccount.checked_deserialize borsh (proposed vault).bytes ≡ ok m
      → deserialize_multisig packages (proposed vault).bytes ≡ some (multisig_value packages m))
    × ((t : Transaction)
        → TransactionAccount.checked_deserialize borsh (proposed vault).bytes ≡ ok t
        → deserialize_transaction packages (proposed vault).bytes
          ≡ some (transaction_value packages t))
deserialize-checked_deserialize_example =
    deserialize-checked_deserialize borsh packages (proposed vault).bytes

read_multisig :
    deserialize_multisig packages (proposed vault).bytes
    ≡ some (multisig_value packages three_owners)
unfolding program proposed
read_multisig =
    (deserialize-checked_deserialize borsh packages (proposed vault).bytes).0 three_owners refl
