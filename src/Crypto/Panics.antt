-- ===== src/Crypto/Panics.antt =====
-- A signature whose recovery byte is out of range makes `verify_signature` of crypto.rs panic.
use gravity_kvstore.Prelude.{
  ℕ, ◌+◌, ◌-◌, ◌%◌, ◌≤◌, ◌<◌, ◌≡◌, Bytes, Text, ok, err, panic, arith, length, get_or, sub_wrap,
  u8_mod, ◌⊎◌, inl, inr, Bool-cases,
}
use gravity_kvstore.Types.{Transaction}
use gravity_kvstore.Types.Deps.{Deps, KeccakLaws, BincodeLaws, SecpLaws}
use gravity_kvstore.Crypto.{SignatureError, recover_signer, verify_signature}
use gravity_kvstore.Crypto.Signing.{compute_transaction_hash-ok}

-- secp256k1: an id above 3 is an error.
pub record RecoveryIdLaws (d : Deps) : Type 0 where
  pub reason : ℕ → Text
  pub from_i32-large : (n : ℕ) → 4 ≤ n → d.recovery_id_from_i32 n ≡ err (reason n)

module _ (d : Deps) (ids : RecoveryIdLaws d) where
  -- The difference to 27 panics, or is an id above 3, whichever way the build treats overflow.
  recovery-panics :
      (v : ℕ)
      → v < 256
      → (v < 27) ⊎ (30 < v)
      → (sub_wrap {E = SignatureError} d.overflow_checks u8_mod v 27 ≡ panic)
        ⊎ ((n : ℕ) × (sub_wrap {E = SignatureError} d.overflow_checks u8_mod v 27 ≡ ok n) × (4 ≤ n))
  recovery-panics v byte (inl low) = elim (Bool-cases d.overflow_checks) [
    | inl checks ↦ inl (ground arith)
    | inr wraps ↦ inr ((v + 256 - 27) % 256, ground arith, omega arith)
  ]
  recovery-panics v byte (inr high) = inr (v - 27, ground arith, omega arith)

  recover_signer-panics :
      (m : d.Message) (bytes : Bytes)
      → length bytes ≡ 65
      → get_or bytes 64 0 < 256
      → (get_or bytes 64 0 < 27) ⊎ (30 < get_or bytes 64 0)
      → recover_signer d m bytes ≡ panic
  unfolding recover_signer
  recover_signer-panics m bytes len byte out = elim (recovery-panics (get_or bytes 64 0) byte out) [
    | inl p ↦ rw (len, p)
    | inr (n, e, large) ↦ rw (len, e, ids.from_i32-large n large)
  ]

  -- With packages that keep their laws, a signature in hex of 65 bytes whose last is not 27, 28,
  -- 29 or 30 is no error: `verify_signature` panics, whichever way the build treats overflow.
  pub verify_signature-panics :
      (sha : KeccakLaws d) (bincode : BincodeLaws d) (secp : SecpLaws d) (tx : Transaction)
      (bytes : Bytes)
      → d.hex_decode tx.signature ≡ ok bytes
      → length bytes ≡ 65
      → get_or bytes 64 0 < 256
      → (get_or bytes 64 0 < 27) ⊎ (30 < get_or bytes 64 0)
      → verify_signature d tx ≡ panic
  unfolding verify_signature
  verify_signature-panics sha bincode secp tx bytes read len byte out =
      let hash = d.keccak (bincode.encoded tx.unsigned) in
      ground (
        arith,
        compute_transaction_hash-ok d bincode {E = SignatureError} tx.unsigned,
        secp.message-ok hash (sha.length-keccak (bincode.encoded tx.unsigned)),
        recover_signer-panics (secp.message hash) bytes len byte out,
      )
