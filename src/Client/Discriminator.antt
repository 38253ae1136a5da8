-- ===== src/Client/Discriminator.antt =====
-- ts/instructions/index.ts: `enum MultisigInstruction`, whose members are numbers.
use multisig_native.Base.{ℕ}

pub data Discriminator : Type 0 where
  create_multisig : Discriminator
  set_owners : Discriminator
  change_threshold : Discriminator
  set_owners_and_change_threshold : Discriminator
  propose_transaction : Discriminator
  approve_transaction : Discriminator
  execute_transaction : Discriminator
  cancel_transaction : Discriminator

unfoldable pub discriminator : Discriminator → ℕ
discriminator create_multisig = 0
discriminator set_owners = 1
discriminator change_threshold = 2
discriminator set_owners_and_change_threshold = 3
discriminator propose_transaction = 4
discriminator approve_transaction = 5
discriminator execute_transaction = 6
discriminator cancel_transaction = 7
