-- ===== src/Sdk/Calls.antt =====
-- The calls of the SDK, as parameters, with what its documentation promises of each.
use multisig_native.Base.{ℕ, ◌≡◌, ◌≢◌, Bool, true, false, List, [], ◌∷◌, Option, replicate}
use multisig_native.Errors.{Result, ok, err, not_enough_account_keys}
use multisig_native.Sdk.Format.{Borsh}
use multisig_native.Sdk.Accounts.{Pubkey, AccountInfo, Account, Store}

-- `solana_program::instruction`
pub record AccountMeta : Type 0 where
  pub pubkey : Pubkey
  pub is_signer : Bool
  pub is_writable : Bool

pub record Instruction : Type 0 where
  pub program_id : Pubkey
  pub accounts : List AccountMeta
  pub bytes : List ℕ

-- The seeds of the program's signer: an account's key and a nonce.
pub record Seeds : Type 0 where
  pub address : Pubkey
  pub nonce : ℕ

pub record Runtime : Type 1 where
  pub borsh : Borsh
  -- `system_program::ID`
  pub system_program : Pubkey
  pub next_account_info : List AccountInfo → Result (AccountInfo × List AccountInfo)
  pub next_account_info-nil : next_account_info [] ≡ err not_enough_account_keys
  pub next_account_info-cons :
      (a : AccountInfo) (rest : List AccountInfo) → next_account_info (a ∷ rest) ≡ ok (a, rest)
  -- `Pubkey::create_program_address(seeds, program_id)`, whose error the program drops
  pub create_program_address : Seeds → Pubkey → Option Pubkey
  -- `Rent::get()` with the `minimum_balance` of what it returns
  pub rent_get : Result (ℕ → ℕ)
  -- `AccountMeta::new` and `AccountMeta::new_readonly`, at a key and `is_signer`
  pub meta_new : Pubkey → Bool → AccountMeta
  pub meta_new_lem :
      (k : Pubkey) (b : Bool)
      → meta_new k b ≡ record { pubkey = k; is_signer = b; is_writable = true }
  pub meta_new_readonly : Pubkey → Bool → AccountMeta
  pub meta_new_readonly_lem :
      (k : Pubkey) (b : Bool)
      → meta_new_readonly k b ≡ record { pubkey = k; is_signer = b; is_writable = false }
  -- `AccountInfo::resize` and `AccountInfo::assign`
  pub resize : Account → ℕ → Result Account
  pub resize_zero : (a : Account) → resize a 0 ≡ ok (record a { bytes = [] })
  pub assign : Account → Pubkey → Account
  pub assign_lem : (a : Account) (k : Pubkey) → assign a k ≡ record a { owner = k }
  -- `system_instruction::create_account(payer, to, lamports, space, owner)`
  pub create_account : Pubkey → Pubkey → ℕ → ℕ → Pubkey → Instruction
  pub invoke : Instruction → List AccountInfo → Store → Result Store
  pub invoke_signed : Instruction → List AccountInfo → Seeds → Store → Result Store
  -- A success of the system program's `create_account`: the account was not in use, it has the
  -- lamports, zeroed space and owner that were asked for, and of the others only the payer's
  -- lamports change.
  pub create_account_new :
      (payer to : Pubkey) (lamports space : ℕ) (owner : Pubkey) (infos : List AccountInfo)
      (s t : Store)
      → invoke (create_account payer to lamports space owner) infos s ≡ ok t
      → ((s to).lamports ≡ 0)
        × ((s to).bytes ≡ [])
        × (t to ≡ record { lamports = lamports; bytes = replicate space 0; owner = owner })
  pub create_account_others :
      (payer to : Pubkey) (lamports space : ℕ) (owner : Pubkey) (infos : List AccountInfo)
      (s t : Store)
      → invoke (create_account payer to lamports space owner) infos s ≡ ok t
      → (k : Pubkey) → k ≢ to
      → ((t k).bytes ≡ (s k).bytes)
        × ((t k).owner ≡ (s k).owner)
        × (k ≢ payer → (t k).lamports ≡ (s k).lamports)
