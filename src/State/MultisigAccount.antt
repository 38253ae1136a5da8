-- ===== src/State/MultisigAccount.antt =====
-- program/src/state/multisig.rs
use multisig_native.Base.{ℕ, ◌+◌, ◌*◌, ◌≡◌, refl, List, length, sum_of, sum_of-const, arith}
use multisig_native.Errors.{Result, assert_success, malformed_multisig_account, multisig_error_into}
use multisig_native.Sdk.{Encoding, both, struct, restate, Borsh, IsU8, IsU32, IsKey, IsVec, Pubkey}

pub record Multisig : Type 0 where
  pub owners : List Pubkey
  pub threshold : ℕ
  pub nonce : ℕ
  pub owner_set_seqno : ℕ
  pub padding : List ℕ

-- `PUBKEY_BYTES`
abbrev pub pubkey_bytes : ℕ
pubkey_bytes = 32

-- `Multisig::len`; the data of an account is far too short for this to wrap around.
unfoldable pub len : Multisig → ℕ
len m = 4 + pubkey_bytes * length m.owners + 1 + 1 + 4 + 4 + length m.padding

-- The fields hold values of their types.
pub record IsMultisig (m : Multisig) : Type 0 where
  pub owners_fit : IsVec IsKey m.owners
  pub threshold_fits : IsU8 m.threshold
  pub nonce_fits : IsU8 m.nonce
  pub seqno_fits : IsU32 m.owner_set_seqno
  pub padding_fits : IsVec IsU8 m.padding

-- The fields in their order, as `BorshSerialize` and `BorshDeserialize` are derived from them.
abbrev Fields : Type 0
Fields = List Pubkey × (ℕ × (ℕ × (ℕ × List ℕ)))

abbrev of_fields : Fields → Multisig
of_fields (owners, (threshold, (nonce, (owner_set_seqno, padding)))) = record {
  owners = owners;
  threshold = threshold;
  nonce = nonce;
  owner_set_seqno = owner_set_seqno;
  padding = padding;
}

abbrev to_fields : Multisig → Fields
to_fields m = (m.owners, (m.threshold, (m.nonce, (m.owner_set_seqno, m.padding))))

module _ (b : Borsh) where
  abbrev fields_codec :
      Encoding {A = Fields}
        (λ t.
          IsVec IsKey t.0
          × (IsU8 t.1.0 × (IsU8 t.1.1.0 × (IsU32 t.1.1.1.0 × IsVec IsU8 t.1.1.1.1))))
        (λ t. (4 + sum_of (λ _. 32) t.0) + (1 + (1 + (4 + (4 + sum_of (λ _. 1) t.1.1.1.1)))))
  fields_codec = both (b.vec b.pubkey) (both b.u8 (both b.u8 (both b.u32 (b.vec b.u8))))

  fields_size :
      (m : Multisig)
      → (4 + sum_of (λ _. 32) m.owners) + (1 + (1 + (4 + (4 + sum_of (λ _. 1) m.padding)))) ≡ len m
  unfolding len
  fields_size m = omega (arith, sum_of-const 32 m.owners, sum_of-const 1 m.padding)

  unfoldable pub multisig_codec : Encoding IsMultisig len
  unfolding fields_size
  multisig_codec =
      restate
        (λ m h. record {
          owners_fit = h.0;
          threshold_fits = h.1.0;
          nonce_fits = h.1.1.0;
          seqno_fits = h.1.1.1.0;
          padding_fits = h.1.1.1.1;
        })
        (λ m h. (h.owners_fit, (h.threshold_fits, (h.nonce_fits, (h.seqno_fits, h.padding_fits)))))
        fields_size (struct of_fields to_fields (λ m. refl) (λ t. refl) fields_codec)

  -- `Multisig::checked_deserialize`
  unfoldable pub checked_deserialize : List ℕ → Result Multisig
  unfolding multisig_codec
  checked_deserialize bytes =
      assert_success (b.try_from_slice multisig_codec bytes) malformed_multisig_account
