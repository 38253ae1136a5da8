-- ===== src/Tests/Parts.antt =====
-- The theorems about the parts of the instructions, at concrete values.
use multisig_native.Base.{
  ◌+◌, ◌*◌, ◌^◌, ◌<◌, ◌≤◌, ◌≡◌, ◌↔◌, ◌⊎◌, true, false, ℕ, refl, List, [], ◌∷◌, replicate, flat_map,
  arith,
}
use multisig_native.Errors.{ok, err, custom}
use multisig_native.Sdk.{Store, little_endian}
use multisig_native.State.MultisigAccount.{Multisig, IsMultisig, len}
use multisig_native.State.MultisigAccount
use multisig_native.State.TransactionAccount.{Transaction, IsTransaction}
use multisig_native.State.TransactionAccount
use multisig_native.State.Layout.{
  listed, multisig_layout, account_layout, instruction_layout, transaction_layout,
  multisig_layout_iff, transaction_layout_iff,
}
use multisig_native.Common.{padding_len, validate_owners, close_account}
use multisig_native.Common.Close.{Closed, close_account_lem}
use multisig_native.Common.Padding.{padding_len_lem}
use multisig_native.Common.Checks.{AreOwnersFor, validate_owners_iff}
use multisig_native.Processor.{
  MultisigInstruction, create_multisig_ix, set_owners_ix, change_threshold_ix,
  set_owners_and_change_threshold_ix, propose_transaction_ix, approve_transaction_ix,
  execute_transaction_ix, cancel_transaction_ix, size,
}
use multisig_native.Tests.Machine.{borsh, machine}
use multisig_native.Tests.Scenario.{vault_signer, account, initial}

abbrev pair : Multisig
pair = record {
  owners = 1 ∷ 2 ∷ [];
  threshold = 2;
  nonce = 255;
  owner_set_seqno = 4;
  padding = replicate 32 0;
}

validate_owners_iff_example :
    (validate_owners pair (7 ∷ 8 ∷ 9 ∷ []) ≡ ok tt) ↔ AreOwnersFor pair (7 ∷ 8 ∷ 9 ∷ [])
validate_owners_iff_example = validate_owners_iff pair (7 ∷ 8 ∷ 9 ∷ [])

-- From two owners to three: the subtraction of the lengths wraps around.
padding_len_lem_example : padding_len 32 2 3 + 3 * 32 ≡ 32 + 2 * 32
padding_len_lem_example = padding_len_lem 32 2 3 (omega arith) (omega arith) (omega arith)

close_account_lem_example :
    (((initial vault_signer).lamports + (initial 30).lamports < 2 ^ 64)
      × ((t : Store) × (close_account machine
              (account 30 false)
              (account vault_signer false)
              initial
            ≡ ok t)
          × Closed machine (account 30 false) (account vault_signer false) initial t))
    ⊎ ((2 ^ 64 ≤ (initial vault_signer).lamports + (initial 30).lamports)
        × (close_account machine (account 30 false) (account vault_signer false) initial
            ≡ err (custom 14)))
close_account_lem_example =
    close_account_lem machine (account 30 false) (account vault_signer false) initial (omega arith)

positive_size : (ix : MultisigInstruction) → 0 < size ix
positive_size (create_multisig_ix d) = omega arith
positive_size (set_owners_ix d) = omega arith
positive_size (change_threshold_ix d) = omega arith
positive_size (set_owners_and_change_threshold_ix d) = omega arith
positive_size (propose_transaction_ix d) = omega arith
positive_size approve_transaction_ix = omega arith
positive_size execute_transaction_ix = omega arith
positive_size cancel_transaction_ix = omega arith

abbrev single : Multisig
single = record {
  owners = 5 ∷ [];
  threshold = 1;
  nonce = 255;
  owner_set_seqno = 258;
  padding = 9 ∷ [];
}

-- One owner, the threshold, the nonce, the sequence number and one byte of padding.
abbrev single_bytes : List ℕ
single_bytes =
    1 ∷ 0 ∷ 0 ∷ 0 ∷ 5 ∷ 0 ∷ 0 ∷ 0 ∷ 0 ∷ 0 ∷ 0 ∷ 0 ∷ 0 ∷ 0 ∷ 0 ∷ 0 ∷ 0 ∷ 0 ∷ 0 ∷ 0 ∷ 0 ∷ 0 ∷ 0 ∷ 0
    ∷ 0 ∷ 0 ∷ 0 ∷ 0 ∷ 0 ∷ 0 ∷ 0 ∷ 0 ∷ 0 ∷ 0 ∷ 0 ∷ 0 ∷ 1 ∷ 255 ∷ 2 ∷ 1 ∷ 0 ∷ 0 ∷ 1 ∷ 0 ∷ 0 ∷ 0 ∷ 9
    ∷ []

single_bytes_layout : single_bytes ≡ multisig_layout single
unfolding multisig_layout listed flat_map little_endian
single_bytes_layout = refl

multisig_layout_iff_example :
    (MultisigAccount.checked_deserialize borsh single_bytes ≡ ok single)
    ↔ ((single_bytes ≡ multisig_layout single) × IsMultisig single)
multisig_layout_iff_example = multisig_layout_iff borsh single_bytes single

abbrev single_transaction : Transaction
single_transaction = record {
  multisig = 7;
  instructions = record { program_id = 8; accounts = []; bytes = 3 ∷ [] } ∷ [];
  signers = false ∷ true ∷ [];
  owner_set_seqno = 258;
}

abbrev single_transaction_bytes : List ℕ
single_transaction_bytes =
    7 ∷ 0 ∷ 0 ∷ 0 ∷ 0 ∷ 0 ∷ 0 ∷ 0 ∷ 0 ∷ 0 ∷ 0 ∷ 0 ∷ 0 ∷ 0 ∷ 0 ∷ 0 ∷ 0 ∷ 0 ∷ 0 ∷ 0 ∷ 0 ∷ 0 ∷ 0 ∷ 0
    ∷ 0 ∷ 0 ∷ 0 ∷ 0 ∷ 0 ∷ 0 ∷ 0 ∷ 0 ∷ 1 ∷ 0 ∷ 0 ∷ 0 ∷ 8 ∷ 0 ∷ 0 ∷ 0 ∷ 0 ∷ 0 ∷ 0 ∷ 0 ∷ 0 ∷ 0 ∷ 0 ∷ 0
    ∷ 0 ∷ 0 ∷ 0 ∷ 0 ∷ 0 ∷ 0 ∷ 0 ∷ 0 ∷ 0 ∷ 0 ∷ 0 ∷ 0 ∷ 0 ∷ 0 ∷ 0 ∷ 0 ∷ 0 ∷ 0 ∷ 0 ∷ 0 ∷ 0 ∷ 0 ∷ 0 ∷ 0
    ∷ 1 ∷ 0 ∷ 0 ∷ 0 ∷ 3 ∷ 2 ∷ 0 ∷ 0 ∷ 0 ∷ 0 ∷ 1 ∷ 2 ∷ 1 ∷ 0 ∷ 0 ∷ []

single_transaction_bytes_layout : single_transaction_bytes ≡ transaction_layout single_transaction
unfolding transaction_layout instruction_layout account_layout listed flat_map little_endian
single_transaction_bytes_layout = refl

transaction_layout_iff_example :
    (TransactionAccount.checked_deserialize borsh single_transaction_bytes ≡ ok single_transaction)
    ↔ ((single_transaction_bytes ≡ transaction_layout single_transaction)
        × IsTransaction single_transaction)
transaction_layout_iff_example =
    transaction_layout_iff borsh single_transaction_bytes single_transaction
