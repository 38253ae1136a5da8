-- ===== src/Tests/Forged.antt =====
-- A multisig that is made so that its data reads as a transaction of the multisig at key 5: the
-- transaction was neither proposed nor approved, and an owner executes it.
use multisig_native.Base.{
  Bool, flat_map, ◌≡◌, refl, true, false, List, [], ◌∷◌, replicate, some, get_elem?, arith, ◌++◌,
}
use multisig_native.Errors.{ok}
use multisig_native.Sdk.{AccountInfo, Store, put}
use multisig_native.State.TransactionAccount.{Transaction, IsTransaction}
use multisig_native.State.InstructionData.{TransactionInstructionData}
use multisig_native.State.Saved.{HoldsTransaction}
use multisig_native.Instructions.CreateMultisig.{CreateMultisigInstruction, create_multisig}
use multisig_native.Instructions.ExecuteTransaction.{execute_transaction}
use multisig_native.Lifecycle.Forged.{forging, inner_bytes, IsForgeable, create_multisig-forged}
use multisig_native.State.Layout.{listed, instruction_layout, account_layout}
use multisig_native.Sdk.Bytes.{keys_of, number_of}
use multisig_native.Tests.Machine.{machine}
use multisig_native.Tests.Scenario.{program, program_id, account, initial, create_ix, result}

-- The multisig of key 5 and of the owners 1, 2 and 3, two of whom have to sign.
abbrev victim_accounts : List AccountInfo
victim_accounts = account 5 true ∷ account 105 false ∷ account 30 true ∷ account 0 false ∷ []

-- Its address has lamports.
abbrev funded : Store
funded = put initial 105 (record { lamports = 50; bytes = []; owner = 0 })

unfoldable pub victim : Store
unfolding program
victim = result funded (create_multisig machine program_id victim_accounts create_ix funded)

abbrev forging_accounts : List AccountInfo
forging_accounts = account 21 true ∷ account 121 false ∷ account 30 true ∷ account 0 false ∷ []

abbrev payment : TransactionInstructionData
payment = record {
  program_id = 0;
  accounts =
      record { pubkey = 105; is_signer = false; is_writable = true }
      ∷ record { pubkey = 60; is_signer = false; is_writable = true }
      ∷ [];
  bytes = 5 ∷ [];
}

abbrev votes : List Bool
votes = replicate 15 true

abbrev forgery : Transaction
forgery = record {
  multisig = 5;
  instructions = payment ∷ [];
  signers = votes ++ (true ∷ true ∷ false ∷ false ∷ false ∷ false ∷ []);
  owner_set_seqno = 0;
}

-- Five owners: their keys are the bytes of the instructions and votes of the transaction.
abbrev forging_ix : CreateMultisigInstruction
forging_ix = record {
  owners =
      26959946667150639794667015087019630673637144422540572481103610249216 ∷ 0 ∷ 450971566082
      ∷ 16889598114267136
      ∷ 454086624460063511464984254936031010847677676263528047678188743529236267008 ∷ [];
  threshold = 1;
  nonce = 1;
}

forging_lem : forging forgery votes true ≡ forging_ix
unfolding forging program listed instruction_layout account_layout keys_of number_of inner_bytes
    flat_map
forging_lem = refl

unfoldable pub forged : Store
unfolding program victim
forged = result victim (create_multisig machine program_id forging_accounts forging_ix victim)

forgery-IsForgeable : IsForgeable forgery votes true
unfolding program
forgery-IsForgeable = record { seqno = refl; signers = refl; size = refl }

forgery-IsTransaction : IsTransaction forgery
forgery-IsTransaction = record {
  multisig_fits = omega arith;
  instructions_fit = (
    omega arith,
    (
      record {
        program_id_fits = omega arith;
        accounts_fit = (omega arith, ground arith);
        bytes_fit = (omega arith, ground arith);
      },
      tt,
    ),
  );
  signers_fit = (omega arith, ground arith);
  seqno_fits = omega arith;
}

forged_ok :
    create_multisig machine program_id forging_accounts (forging forgery votes true) victim
    ≡ ok forged
unfolding program forged
forged_ok = rw forging_lem refl

create_multisig-forged_example :
    (multisig_account : AccountInfo) × (get_elem? forging_accounts 0 ≡ some multisig_account)
    × ((forged multisig_account.key).owner ≡ 7)
    × HoldsTransaction machine forged multisig_account.key forgery
create_multisig-forged_example =
    create_multisig-forged machine program_id forging_accounts victim forged forgery votes true
      forgery-IsTransaction forgery-IsForgeable forged_ok

abbrev spend_accounts : List AccountInfo
spend_accounts =
    account 5 false
    ∷ account 105 false
    ∷ account 21 false
    ∷ account 30 false
    ∷ account 3 true
    ∷ account 60 false
    ∷ []

-- One of the owners takes what the victim's address has.
spent :
    (s : Store) × (execute_transaction machine program_id spend_accounts forged ≡ ok s)
    × ((s 60).lamports ≡ 5)
unfolding program forged
spent = (result forged (execute_transaction machine program_id spend_accounts forged), refl, refl)
