-- ===== src/Lifecycle/Voters.antt =====
-- A vote that was cast in a run, against the owners at its end (the `signers` of
-- program/src/state/transaction.rs and the `owners` of program/src/state/multisig.rs).
use multisig_native.Lifecycle.Owners.{
  Backed, dispatch-Backed, more-Backed, Outside-Backed, Closed-Backed, Run-Backed,
}
use multisig_native.Base.{
  ℕ, ◌+◌, ◌%◌, ◌^◌, ◌<◌, ◌≡◌, inl, inr, sym, ◌∙◌, List, some, get_elem?, arith,
}
use multisig_native.Errors.{ok-injective}
use multisig_native.Sdk.{Pubkey, AccountInfo, Store, Runtime}
use multisig_native.State.MultisigAccount.{Multisig}
use multisig_native.State.Stored.{multisig_stored}
use multisig_native.State.Saved.{HoldsMultisig}
use multisig_native.Common.Close.{close_account-Closed}
use multisig_native.Instructions.ExecuteTransaction.Validated.{validate-Validated}
use multisig_native.Processor.{MultisigInstruction}
use multisig_native.Lifecycle.Runs.{Run, start, call, outside, execute}
use multisig_native.Lifecycle.Votes.{Vote, Cast, changes_of, changes, StaysAside}

module _ (rt : Runtime) (program_id key : Pubkey) (q i : ℕ) (voter : Pubkey) where
  abbrev IsVoter : List Pubkey → Type 0
  IsVoter owners = get_elem? owners i ≡ some voter

  Vote-Backed :
      (s : Store) (tx : Pubkey) (ix : MultisigInstruction) (accounts : List AccountInfo)
      → Vote rt program_id ix accounts s tx key q i voter
      → Backed rt program_id s key q IsVoter 0
  Vote-Backed s tx ix accounts v =
      let fits = (multisig_stored rt.borsh _ v.multisig v.holds_multisig).2 in
      let small = fits.seqno_fits in
      let same = v.same_seqno in
      record {
        owned = v.multisig_owned;
        multisig = v.multisig;
        holds = v.holds_multisig;
        since = 0;
        at_most = omega arith;
        counted = omega arith;
        owner = λ e. v.owner;
      }

  -- A vote that has been cast in the run is backed in the end.
  pub Cast-Backed :
      {s t : Store} (r : Run rt program_id s t) (tx : Pubkey)
      → StaysAside r key
      → Cast r tx key q i voter
      → Backed rt program_id t key q IsVoter (changes r)
  unfolding changes StaysAside Cast
  Cast-Backed start tx aside cast = absurd cast
  Cast-Backed (call {t} {u} r c) tx aside (inl earlier) =
      dispatch-Backed rt program_id key q IsVoter t u (changes r) (Cast-Backed r tx aside.0 earlier)
        c.accounts c.ix c.typed c.keys c.small aside.1 c.plain c.success
  Cast-Backed (call {t} {u} r c) tx aside (inr vote) =
      more-Backed rt program_id key q IsVoter u (0 + changes_of c.ix) (changes r + changes_of c.ix)
        (omega arith)
        (dispatch-Backed rt program_id key q IsVoter t u 0 (Vote-Backed t tx c.ix c.accounts vote)
          c.accounts c.ix c.typed c.keys c.small aside.1 c.plain c.success)
  Cast-Backed (outside {t} {u} r o) tx aside cast =
      more-Backed rt program_id key q IsVoter u (changes r + 0) (changes r) (omega arith)
        (Outside-Backed rt program_id key q IsVoter t u (changes r) (Cast-Backed r tx aside cast) o)
  Cast-Backed (execute {t} {u} {w} accounts v r valid inner closes) tx aside cast =
      let apart = (validate-Validated rt program_id accounts t v valid).checked.ready.apart in
      let closed = close_account-Closed rt v.transaction_account v.refundee u w apart closes in
      let within : Backed rt program_id u key q IsVoter (changes r + changes inner) = elim cast [
        | inl earlier ↦
            Run-Backed rt program_id key q IsVoter inner (changes r) aside.1
              (Cast-Backed r tx aside.0 earlier)
        | inr later ↦
            more-Backed rt program_id key q IsVoter u (changes inner) (changes r + changes inner)
              (omega arith) (Cast-Backed inner tx aside.1 later)
      ] in
      more-Backed rt program_id key q IsVoter w (changes r + changes inner + 0)
        (changes r + changes inner) (omega arith)
        (Closed-Backed rt program_id key q IsVoter u w (changes r + changes inner) within
          v.transaction_account v.refundee aside.2 closed)

  -- While the sequence number has not come round, the voter is an owner still.
  pub Backed-owner :
      (t : Store) (m : Multisig) (n : ℕ)
      → n < 2 ^ 32
      → Backed rt program_id t key q IsVoter n
      → HoldsMultisig rt t key m
      → m.owner_set_seqno ≡ q
      → get_elem? m.owners i ≡ some voter
  Backed-owner t m n few b holds same_seqno =
      let same : b.multisig ≡ m = ok-injective (sym b.holds ∙ holds) in
      let fits = (multisig_stored rt.borsh _ m holds).2 in
      let counted : m.owner_set_seqno ≡ (q + b.since) % 2 ^ 32 = rw (← same) b.counted in
      let at_most = b.at_most in let small = fits.seqno_fits in rw (← same) (b.owner (omega arith))
