-- ===== src/Instructions/ExecuteTransaction/Executed.antt =====
-- What a successful `execute_transaction` (program/src/instructions/execute_transaction.rs) has
-- invoked, and how it ends.
use multisig_native.State.TransactionAccount.{Transaction}
use multisig_native.State.MultisigAccount.{Multisig}
use multisig_native.Base.{
  leb, false, le→leb, ◌%◌, ◌≤◌, ◌≡◌, refl, List, [], ◌∷◌, map, ◌==◌, ◌||◌, arith, subst, ◌<◌, ◌+◌,
  ◌^◌,
}
use multisig_native.Errors.{err, custom, ok, bind_ok, ok-injective}
use multisig_native.Sdk.{Pubkey, AccountInfo, AccountMeta, Seeds, Store, Runtime}
use multisig_native.State.InstructionData.{
  TransactionInstructionAccount, TransactionInstructionData, account_meta,
}
use multisig_native.Common.Close.{Closed, close_account-Closed, close_account-fits_lem}
use multisig_native.Instructions.ExecuteTransaction.{
  ValidatedAccounts, validate, sign_meta, signed_instruction, invoke_all, execute_transaction,
  count_signed,
}
use multisig_native.Instructions.ExecuteTransaction.Validated.{
  Validated, validate-Validated, IsReady, IsReady-validate,
}

module _ (rt : Runtime) where
  -- The metadata with which a proposed account is passed on: the signer's key is added to the
  -- signers.
  abbrev pub passed : Pubkey → TransactionInstructionAccount → AccountMeta
  passed signer_key a = record {
    pubkey = a.pubkey;
    is_signer = a.is_signer || a.pubkey == signer_key;
    is_writable = a.is_writable;
  }

  account_meta_lem :
      (a : TransactionInstructionAccount)
      → account_meta rt a
        ≡ record { pubkey = a.pubkey; is_signer = a.is_signer; is_writable = a.is_writable }
  unfolding account_meta
  account_meta_lem a =
      ground
        (arith, rt.meta_new_lem a.pubkey a.is_signer, rt.meta_new_readonly_lem a.pubkey a.is_signer)

  sign_meta-passed :
      (signer_key : Pubkey) (a : TransactionInstructionAccount)
      → sign_meta signer_key (account_meta rt a) ≡ passed signer_key a
  unfolding sign_meta
  sign_meta-passed signer_key a = rw (account_meta_lem a) (ground arith)

  map-passed :
      (signer_key : Pubkey) (accounts : List TransactionInstructionAccount)
      → map (sign_meta signer_key) (map (account_meta rt) accounts)
        ≡ map (passed signer_key) accounts
  map-passed signer_key [] = refl
  map-passed signer_key (a ∷ accounts) =
      rw (sign_meta-passed signer_key a, map-passed signer_key accounts)

  -- The instruction that is invoked has the program, the data, and the accounts in their order
  -- and with their writability as they were proposed; an account is passed as a signer exactly if
  -- it was proposed as one or is the multisig's signer.
  pub signed_instruction_lem :
      (signer_key : Pubkey) (ix : TransactionInstructionData)
      → signed_instruction rt signer_key ix ≡ record {
        program_id = ix.program_id;
        accounts = map (passed signer_key) ix.accounts;
        bytes = ix.bytes;
      }
  unfolding signed_instruction
  signed_instruction_lem signer_key ix = rw (map-passed signer_key ix.accounts)

  -- The instructions have been invoked in order, each in the state that the one before it left.
  pub data Invokes (signer_key : Pubkey) (seeds : Seeds) (accounts : List AccountInfo)
      : List TransactionInstructionData → Store → Store → Type 0 where
    none_left : {s : Store} → Invokes signer_key seeds accounts [] s s
    then :
        {ix : TransactionInstructionData} {ixs : List TransactionInstructionData} {s t u : Store}
        → rt.invoke_signed (signed_instruction rt signer_key ix) accounts seeds s ≡ ok t
        → Invokes signer_key seeds accounts ixs t u
        → Invokes signer_key seeds accounts (ix ∷ ixs) s u

  pub invoke_all-Invokes :
      (signer_key : Pubkey) (seeds : Seeds) (accounts : List AccountInfo)
      (ixs : List TransactionInstructionData) (s t : Store)
      → invoke_all rt signer_key seeds accounts ixs s ≡ ok t
      → Invokes signer_key seeds accounts ixs s t
  unfolding invoke_all
  invoke_all-Invokes signer_key seeds accounts [] s t h =
      subst (Invokes signer_key seeds accounts [] s) (ok-injective h) none_left
  invoke_all-Invokes signer_key seeds accounts (ix ∷ ixs) s t h =
      bind_ok (rt.invoke_signed (signed_instruction rt signer_key ix) accounts seeds s) _ h
        λ u first rest. then first (invoke_all-Invokes signer_key seeds accounts ixs u t rest)

  Invokes-invoke_all :
      {signer_key : Pubkey} {seeds : Seeds} {accounts : List AccountInfo}
      {ixs : List TransactionInstructionData} {s t : Store}
      → Invokes signer_key seeds accounts ixs s t
      → invoke_all rt signer_key seeds accounts ixs s ≡ ok t
  unfolding invoke_all
  Invokes-invoke_all none_left = refl
  Invokes-invoke_all (then first rest) = rw first (Invokes-invoke_all rest)

module _ (rt : Runtime) (program_id : Pubkey) where
  -- What a successful call has checked and done.
  pub record Executed (accounts : List AccountInfo) (s t : Store) : Type 0 where
    pub validated : ValidatedAccounts
    pub checked : Validated rt program_id accounts s validated
    -- Signed by the multisig's signer, all of the transaction's instructions were invoked, and
    -- then the transaction account was closed.
    pub invoked_to : Store
    pub invoked :
        Invokes rt validated.multisig_signer.key
          (record { address = validated.multisig_account.key; nonce = validated.multisig.nonce })
          accounts
          validated.transaction.instructions
          s
          invoked_to
    pub closed : Closed rt validated.transaction_account validated.refundee invoked_to t

  -- If execute_transaction succeeds, then the first five accounts passed every check (the
  -- multisig and the transaction are the program's and hold what was read, the executor has
  -- signed and is an owner, the sequence numbers agree, the transaction is of this multisig and
  -- has at least threshold votes, the signer is the derived address, the refundee is another
  -- account), every instruction of the transaction was invoked in order with the signer's seeds,
  -- and the transaction account was then closed into the refundee.
  pub execute_transaction-Executed :
      (accounts : List AccountInfo) (s t : Store)
      → execute_transaction rt program_id accounts s ≡ ok t
      → Executed accounts s t
  unfolding execute_transaction
  execute_transaction-Executed accounts s t h =
      bind_ok (validate rt program_id accounts s) _ h λ v valid h₁.
        let checked = validate-Validated rt program_id accounts s v valid in
        let seeds : Seeds = record { address = v.multisig_account.key; nonce = v.multisig.nonce } in
        bind_ok (invoke_all rt v.multisig_signer.key seeds accounts v.transaction.instructions s) _
          h₁
          λ u invoked h₂. record {
            validated = v;
            checked = checked;
            invoked_to = u;
            invoked = invoke_all-Invokes rt v.multisig_signer.key seeds accounts _ s u invoked;
            closed =
                close_account-Closed rt v.transaction_account v.refundee u t
                  checked.checked.ready.apart h₂;
          }

  -- execute_transaction succeeds and closes the transaction account if the accounts pass the
  -- checks, the number of votes modulo 256 reaches the threshold, its instructions can be invoked
  -- one after the other, and the refundee's and the transaction account's lamports then add up to
  -- a u64.
  pub execute_transaction_succeeds :
      (ms signer tx refundee executor : AccountInfo) (rest : List AccountInfo) (multisig : Multisig)
      (transaction : Transaction) (s u : Store)
      → IsReady rt program_id ms signer tx refundee executor multisig transaction s
      → multisig.threshold ≤ count_signed transaction.signers % 2 ^ 8
      → Invokes rt signer.key
          (record { address = ms.key; nonce = multisig.nonce })
          (ms ∷ signer ∷ tx ∷ refundee ∷ executor ∷ rest)
          transaction.instructions
          s
          u
      → (u refundee.key).lamports + (u tx.key).lamports < 2 ^ 64
      → (t : Store) × (execute_transaction rt program_id
            (ms ∷ signer ∷ tx ∷ refundee ∷ executor ∷ rest)
            s
          ≡ ok t)
        × Closed rt tx refundee u t
  unfolding execute_transaction
  execute_transaction_succeeds ms signer tx refundee executor rest multisig transaction s u ready
        enough invoked refund =
      let (t, closes, done) = close_account-fits_lem rt tx refundee u ready.apart refund in
      (
        t,
        simp (
          IsReady-validate rt program_id ms signer tx refundee executor rest multisig transaction s
              ready,
          le→leb _ _ enough,
          Invokes-invoke_all rt invoked,
          closes,
        ),
        done,
      )

  -- If the accounts pass all other checks, and the number of votes modulo 256 is below the
  -- threshold, execute_transaction fails with NotEnoughSigners.
  pub execute_transaction_too_early :
      (ms signer tx refundee executor : AccountInfo) (rest : List AccountInfo) (multisig : Multisig)
      (transaction : Transaction) (s : Store)
      → IsReady rt program_id ms signer tx refundee executor multisig transaction s
      → count_signed transaction.signers % 2 ^ 8 < multisig.threshold
      → execute_transaction rt program_id (ms ∷ signer ∷ tx ∷ refundee ∷ executor ∷ rest) s
        ≡ err (custom 13)
  unfolding execute_transaction
  execute_transaction_too_early ms signer tx refundee executor rest multisig transaction s ready
        few =
      let fails : leb multisig.threshold (count_signed transaction.signers % 2 ^ 8) ≡ false =
        ground arith in
      simp (
        IsReady-validate rt program_id ms signer tx refundee executor rest multisig transaction s
            ready,
        fails,
      )
