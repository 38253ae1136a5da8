-- ===== src/Tests/Histories.antt =====
-- The calls of the scenario as the runtime makes them, one after the other.
use multisig_native.Tests.Runs.{
  initial-IsSmall, created-IsSmall, proposed-IsSmall, approved-IsSmall, transfer_size,
}
use native.Mathlib.Decide.{ℕ_discrete}
use multisig_native.State.Stored.{transaction_bytes}
use multisig_native.Tests.Calls.{transfer_votes}
use multisig_native.Base.{sym, subst, ℕ, ◌≤◌, ◌≡◌, refl, true, false, List, [], ◌∷◌, length, arith}
use multisig_native.Errors.{ok}
use multisig_native.Sdk.{AccountMeta, Pubkey, Store, Account, put, put_self, put_ne}
use multisig_native.Common.Writes.{max_data_length}
use multisig_native.Processor.{instruction_codec, create_multisig_ix, propose_transaction_ix}
use multisig_native.Lifecycle.Runs.{IsSmall, Outside, start, outside, InvokesRun}
use multisig_native.Lifecycle.History.{History, begin, instruction}
use multisig_native.Tests.Machine.{borsh, machine, run, make, move}
use multisig_native.Tests.Scenario.{
  program, vault_signer, program_id, initial, create_accounts, create_ix, propose_accounts,
  propose_ix, approve_accounts, approved, execute_accounts, executed,
}

put-IsSmall :
    (s : Store) (k : Pubkey) (a : Account)
    → IsSmall s
    → length a.bytes ≤ max_data_length
    → IsSmall (put s k a)
put-IsSmall s k a small h j = elim (ℕ_discrete k j) [
  | yes e ↦ rw (← e, put_self s k) h
  | no ne ↦ rw (put_ne s k j a ne) (small j)
]

abbrev empty : ℕ → Pubkey → Account
empty lamports owner = record { lamports = lamports; bytes = []; owner = owner }

abbrev unpaid : Account
unpaid = record {
  lamports = 0;
  bytes = transaction_bytes borsh (transfer_votes (true ∷ true ∷ false ∷ []));
  owner = program_id;
}

executed_puts :
    executed
    ≡ put
        (put
          (put
            (put (put (put approved vault_signer (empty 45 0)) 40 (empty 5 0)) 20 unpaid)
            30
            (executed 30))
          20
          (empty 0 program_id))
        20
        (empty 0 0)
unfolding program executed
executed_puts = refl

refunded_size : length (executed 30).bytes ≡ 0
unfolding program executed
refunded_size = refl

executed-IsSmall : IsSmall executed
executed-IsSmall = subst IsSmall (sym executed_puts) (
    put-IsSmall _ 20 (empty 0 0)
      (put-IsSmall _ 20 (empty 0 program_id)
        (put-IsSmall _ 30 (executed 30)
          (put-IsSmall _ 20 unpaid
            (put-IsSmall _ 40 (empty 5 0)
              (put-IsSmall approved vault_signer (empty 45 0) approved-IsSmall (omega arith))
              (omega arith))
            transfer_size)
          (omega (arith, refunded_size)))
        (omega arith))
      (omega arith))

move-Outside :
    (from : AccountMeta) (to : Pubkey) (lamports : ℕ) (s t : Store)
    → move from to lamports s ≡ ok t
    → Outside program_id s t
unfolding put
move-Outside from to lamports s t h = record {
  keeps = λ k e. ground arith;
  zeroed = λ k ne e. absurd (ne (ground arith));
}

make-Outside :
    (payer to : Pubkey) (lamports space : ℕ) (owner : Pubkey) (s t : Store)
    → make payer to lamports space owner s ≡ ok t
    → Outside program_id s t
unfolding put
make-Outside payer to lamports space owner s t h = record {
  keeps = λ k e. ground arith;
  zeroed = λ k ne e. (space, ground arith);
}

-- Whatever is invoked, the system program does it, and to no account of another program.
run-Outside :
    (metas : List AccountMeta) (bytes : List ℕ) (s t : Store)
    → run metas bytes s ≡ ok t
    → Outside program_id s t
run-Outside [] bytes s t h = ground arith
run-Outside (a ∷ []) bytes s t h = ground arith
run-Outside (a ∷ b ∷ []) [] s t h = ground arith
run-Outside (a ∷ b ∷ []) (x ∷ []) s t h = move-Outside a b.pubkey x s t h
run-Outside (a ∷ b ∷ []) (x ∷ y ∷ []) s t h = ground arith
run-Outside (a ∷ b ∷ []) (x ∷ y ∷ z ∷ []) s t h = make-Outside a.pubkey b.pubkey x y z s t h
run-Outside (a ∷ b ∷ []) (x ∷ y ∷ z ∷ w ∷ bytes) s t h = ground arith
run-Outside (a ∷ b ∷ c ∷ metas) bytes s t h = ground arith

machine-InvokesRun : InvokesRun machine program_id
machine-InvokesRun ix infos seeds s t h =
    outside start (run-Outside ix.accounts ix.bytes s t (ground arith))

life_bytes : History machine program_id initial executed
unfolding program executed
life_bytes =
    instruction execute_accounts (6 ∷ [])
      (instruction approve_accounts (5 ∷ [])
        (instruction propose_accounts
          ((instruction_codec borsh).write (propose_transaction_ix propose_ix))
          (instruction create_accounts
            ((instruction_codec borsh).write (create_multisig_ix create_ix)) begin (omega arith)
            initial-IsSmall created-IsSmall refl)
          (omega arith) created-IsSmall proposed-IsSmall refl)
        (omega arith) proposed-IsSmall approved-IsSmall refl)
      (omega arith) approved-IsSmall executed-IsSmall refl
