-- ===== src/Lifecycle/Ballot/Refined.antt =====
-- The accounts of a multisig and of a transaction as a ballot, and the three instructions that
-- hold it (program/src/instructions/propose_transaction.rs, approve_transaction.rs and
-- execute_transaction.rs).
use multisig_native.Base.{
  ◌↔◌, ◌%◌, ◌^◌, ◌<◌, ◌≤◌, ◌≡◌, refl, sym, ◌∙◌, Bool, true, false, List, ◌∷◌, some, length,
  get_elem?, leb, le→leb, if◌then◌else◌, arith, All,
}
use multisig_native.Errors.{Result, ProgramError, ok, err, ok-injective}
use multisig_native.Errors.Unique.{IsUnique}
use multisig_native.Sdk.{Pubkey, AccountInfo, Store, Runtime, IsKey, IsVec}
use multisig_native.State.MultisigAccount.{Multisig}
use multisig_native.State.TransactionAccount.{Transaction}
use multisig_native.State.InstructionData.{IsInstructionData}
use multisig_native.State.Saved.{HoldsMultisig, HoldsTransaction, with_vote}
use multisig_native.Instructions.ExecuteTransaction.Approvals.{count_signed-le-length}
use multisig_native.Instructions.ApproveTransaction.{approve_transaction}
use multisig_native.Instructions.ApproveTransaction.Approved.{approve_transaction-Approved}
use multisig_native.Instructions.ProposeTransaction.{
  ProposeTransactionInstruction, propose_transaction,
}
use multisig_native.Instructions.ProposeTransaction.Proposed.{
  proposed, propose_transaction-Proposed,
}
use multisig_native.Instructions.ExecuteTransaction.{
  count_signed, ValidatedAccounts, validate, execute_transaction,
}
use multisig_native.Instructions.ExecuteTransaction.Validated.{IsReady, IsReady-validate}
use multisig_native.Instructions.ExecuteTransaction.Executed.{execute_transaction-Executed}
use multisig_native.Lifecycle.Ballot.Views.{
  ballot, with_vote-ballot, proposed-ballot, length_voters,
}
use multisig_native.Lifecycle.Ballot.{keys, size, opened, approved, passes}
use multisig_native.Lifecycle.Signatories.{signatories}

if-ok :
    {A : Type 0} (passed : Bool) (a : A) (e : ProgramError) (r : Result A)
    → r ≡ (if passed then ok a else err e)
    → ((b : A) × (r ≡ ok b)) ↔ (passed ≡ true)
if-ok true a e r h = (λ p. refl, λ p. (a, h))
if-ok false a e r h = (λ p. absurd (cc (h, p.1)), λ p. cc)

module _ (rt : Runtime) (program_id : Pubkey) where
  -- A successful approve_transaction is a vote in the abstract ballot, which has keys in no order
  -- and no indices: it refines the step that asks that the approver is an owner, and adds the key
  -- to the voters unless it is one already. The multisig's owners are distinct.
  pub approve_transaction-approved :
      (ms tx approver : AccountInfo) (rest : List AccountInfo) (m : Multisig) (t : Transaction)
      (s u : Store)
      → HoldsMultisig rt s ms.key m
      → HoldsTransaction rt s tx.key t
      → IsUnique m.owners
      → approve_transaction rt program_id (ms ∷ tx ∷ approver ∷ rest) s ≡ ok u
      → (t' : Transaction) × HoldsTransaction rt u tx.key t'
        × (approved approver.key (ballot m t) ≡ some (ballot m t'))
  approve_transaction-approved ms tx approver rest m t s u hm ht unique h =
      let c = approve_transaction-Approved rt program_id _ s u h in
      let first : ms ≡ c.multisig_account = cc (c.given) in
      let second : tx ≡ c.transaction_account = cc (c.given) in
      let third : approver ≡ c.approver = cc (c.given) in
      let same_m : c.multisig ≡ m = ok-injective (sym c.holds_multisig ∙ rw first at hm) in
      let same_t : c.transaction ≡ t = ok-injective (sym c.holds_transaction ∙ rw second at ht) in
      let owner : get_elem? m.owners c.index ≡ some approver.key = rw (← same_m, third) c.owner in
      let within : c.index < length t.signers = rw (← same_t) c.within in
      (
        with_vote t c.index,
        rw (second, ← same_t) c.voted,
        with_vote-ballot m t c.index approver.key unique owner within,
      )

  -- A successful propose_transaction opens an abstract ballot: the proposer is an owner, and the
  -- stored transaction stands for the ballot in which the proposer is the only voter. Keys and
  -- instructions are of their types.
  pub propose_transaction-opened :
      (ms tx proposer : AccountInfo) (rest : List AccountInfo) (ix : ProposeTransactionInstruction)
      (m : Multisig) (s u : Store)
      → All (λ a. IsKey a.key) (ms ∷ tx ∷ proposer ∷ rest)
      → IsVec IsInstructionData ix.instructions
      → HoldsMultisig rt s ms.key m
      → propose_transaction rt program_id (ms ∷ tx ∷ proposer ∷ rest) ix s ≡ ok u
      → (t : Transaction) × HoldsTransaction rt u tx.key t
        × (opened (keys m.owners) m.threshold proposer.key ≡ some (ballot m t))
  propose_transaction-opened ms tx proposer rest ix m s u key_sizes typed hm h =
      let c = propose_transaction-Proposed rt program_id _ ix s u key_sizes typed h in
      let first : ms ≡ c.multisig_account = cc (c.given) in
      let second : tx ≡ c.transaction_account = cc (c.given) in
      let third : proposer ≡ c.proposer = cc (c.given) in
      let same_m : c.multisig ≡ m = ok-injective (sym c.holds_multisig ∙ rw first at hm) in
      let owner : get_elem? m.owners c.index ≡ some proposer.key = rw (← same_m, third) c.owner in
      (
        proposed ms.key m ix c.index,
        rw (first, second, ← same_m) c.holds,
        proposed-ballot ms.key m ix c.index proposer.key owner,
      )

  -- If execute_transaction succeeds, then the abstract ballot of the multisig and the transaction
  -- passes: its voters, in no order, are at least as many as the threshold. The transaction has
  -- no more votes than the multisig has owners.
  pub execute_transaction-passes :
      (ms signer tx : AccountInfo) (rest : List AccountInfo) (m : Multisig) (t : Transaction)
      (s u : Store)
      → HoldsMultisig rt s ms.key m
      → HoldsTransaction rt s tx.key t
      → length t.signers ≤ length m.owners
      → execute_transaction rt program_id (ms ∷ signer ∷ tx ∷ rest) s ≡ ok u
      → passes (ballot m t) ≡ true
  unfolding passes ballot size
  execute_transaction-passes ms signer tx rest m t s u hm ht enough h =
      let c = execute_transaction-Executed rt program_id _ s u h in
      let v = c.validated in
      let first : ms ≡ v.multisig_account = cc (c.checked.given) in
      let third : tx ≡ v.transaction_account = cc (c.checked.given) in
      let ready = c.checked.checked.ready in
      let same_m : v.multisig ≡ m = ok-injective (sym ready.holds_multisig ∙ rw first at hm) in
      let same_t : v.transaction ≡ t =
        ok-injective (sym ready.holds_transaction ∙ rw third at ht) in
      let voted : m.threshold ≤ count_signed t.signers =
        rw (← same_m, ← same_t) c.checked.checked.approved in
      le→leb m.threshold (length (signatories t.signers m.owners))
        (omega (arith, length_voters m t enough))

  -- If the accounts pass all of the other checks of an execution, then validate accepts them
  -- exactly if the abstract ballot passes, its voters being at least as many as the threshold.
  -- There are fewer than 256 owners, and the transaction has no more votes than the multisig has
  -- owners.
  pub validate-passes :
      (ms signer tx refundee executor : AccountInfo) (rest : List AccountInfo) (m : Multisig)
      (t : Transaction) (s : Store)
      → IsReady rt program_id ms signer tx refundee executor m t s
      → length t.signers ≤ length m.owners
      → length m.owners < 256
      → ((v : ValidatedAccounts) × (validate rt program_id
              (ms ∷ signer ∷ tx ∷ refundee ∷ executor ∷ rest)
              s
            ≡ ok v))
        ↔ (passes (ballot m t) ≡ true)
  unfolding passes ballot size
  validate-passes ms signer tx refundee executor rest m t s ready enough few =
      let checks = IsReady-validate rt program_id ms signer tx refundee executor rest m t s ready in
      let voters = length_voters m t enough in
      let all_count : count_signed t.signers % 2 ^ 8 ≡ length (signatories t.signers m.owners) =
        omega (arith, count_signed-le-length t.signers) in
      if-ok (leb m.threshold (length (signatories t.signers m.owners))) _ _
        (validate rt program_id (ms ∷ signer ∷ tx ∷ refundee ∷ executor ∷ rest) s)
        (rw all_count at checks)
