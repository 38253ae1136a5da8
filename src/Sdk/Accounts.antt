-- ===== src/Sdk/Accounts.antt =====
-- The accounts of solana_program. An `AccountInfo` names an account by its key; what the
-- infos of one key share (their `Rc` cells) is the entry of that key in the store.
use multisig_native.Base.{ℕ, ◌≡◌, ◌≢◌, Bool, List, ◌==◌, if◌then◌else◌, ==_refl, ==_ne}

-- A key is the number that its 32 bytes hold.
abbrev pub Pubkey : Type 0
Pubkey = ℕ

pub record AccountInfo : Type 0 where
  pub key : Pubkey
  pub is_signer : Bool
  pub is_writable : Bool

pub record Account : Type 0 where
  pub lamports : ℕ
  pub bytes : List ℕ
  pub owner : Pubkey

abbrev pub Store : Type 0
Store = Pubkey → Account

-- The store with another entry at `k`.
unfoldable pub put : Store → Pubkey → Account → Store
put s k a j = if k == j then a else s j

pub put_self : (s : Store) (k : Pubkey) (a : Account) → put s k a k ≡ a
unfolding put
put_self s k a = rw (==_refl k)

pub put_ne : (s : Store) (k j : Pubkey) (a : Account) → k ≢ j → put s k a j ≡ s j
unfolding put
put_ne s k j a h = rw (==_ne k j h)
