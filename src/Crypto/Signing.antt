-- ===== src/Crypto/Signing.antt =====
-- Signing and verification in crypto.rs, and the addresses that txpool/types.rs converts.
use gravity_kvstore.Prelude.{
  ℕ, ◌+◌, ◌<◌, ◌≡◌, subst, Text, Bytes, [], ◌∷◌, ◌++◌, ok, arith, length, length-append,
  length-drop, get_or, get_or-append_length, take, take-length_append, drop, replicate, IsBytes,
  All-append, All-drop, sub_wrap, u8_mod,
}
use gravity_kvstore.Types.{UnsignedTransaction}
use gravity_kvstore.Types.Deps.{Deps, HexLaws, KeccakLaws, BincodeLaws, SecpLaws}
use gravity_kvstore.Types.Convert.{convert_account}
use gravity_kvstore.Crypto.{
  SignatureError, compute_transaction_hash, public_key_to_address, sign_transaction, recover_signer,
  verify_signature,
}

module _ (d : Deps) (hex : HexLaws d) (sha : KeccakLaws d) where
  -- With packages that keep their laws, the address of a key converts: `convert_account` returns
  -- its 20 bytes, the end of the key's digest, behind twelve zeros.
  pub convert_account-address :
      (key : d.PublicKey)
      → convert_account d (public_key_to_address d key)
        ≡ ok (replicate 12 0 ++ drop 12 (d.keccak (drop 1 (d.serialize_uncompressed key))))
  unfolding convert_account public_key_to_address
  convert_account-address key =
      let digest = d.keccak (drop 1 (d.serialize_uncompressed key)) in
      let len : length (drop 12 digest) ≡ 20 =
        omega (
          arith,
          length-drop 12 digest,
          sha.length-keccak (drop 1 (d.serialize_uncompressed key)),
        ) in
      rw
        (hex.decode-encode (drop 12 digest) (
          All-drop (λ b. b < 256) 12 digest
            (sha.keccak-IsBytes (drop 1 (d.serialize_uncompressed key)))))
        (ground arith)

-- 64 bytes and one more, taken apart as `verify_signature` does.
compact_and_last :
    (compact : Bytes) (v : ℕ)
    → length compact ≡ 64
    → (length (compact ++ v ∷ []) ≡ 65)
      × (get_or (compact ++ v ∷ []) 64 0 ≡ v)
      × (take 64 (compact ++ v ∷ []) ≡ compact)
compact_and_last compact v len = (
  omega (arith, len, length-append compact (v ∷ [])),
  subst (λ k. get_or (compact ++ v ∷ []) k 0 ≡ v) len (get_or-append_length compact (v ∷ []) 0),
  subst (λ k. take k (compact ++ v ∷ []) ≡ compact) len (take-length_append compact (v ∷ [])),
)

module _ (d : Deps) where
  -- Recovery, step by step: the byte at the end gives the id, the 64 before it the signature.
  recover_signer-steps :
      (m : d.Message) (bytes : Bytes) (v : ℕ) (id : d.RecoveryId) (sig : d.Signature)
      (key : d.PublicKey)
      → length bytes ≡ 65
      → get_or bytes 64 0 ≡ v + 27
      → d.recovery_id_from_i32 v ≡ ok id
      → d.signature_from_compact (take 64 bytes) id ≡ ok sig
      → d.recover_ecdsa m sig ≡ ok key
      → recover_signer d m bytes ≡ ok (public_key_to_address d key)
  unfolding recover_signer
  recover_signer-steps m bytes v id sig key len last i s k =
      let sub : sub_wrap {E = SignatureError} d.overflow_checks u8_mod (v + 27) 27 ≡ ok v =
        ground arith in
      rw (len, last, sub, i, s, k)

module _ (d : Deps) (bincode : BincodeLaws d) where
  pub compute_transaction_hash-ok :
      {E : Type 0} (tx : UnsignedTransaction)
      → compute_transaction_hash d {E = E} tx ≡ ok (d.keccak (bincode.encoded tx))
  unfolding compute_transaction_hash
  compute_transaction_hash-ok tx = rw (bincode.bincode-ok tx)

module _ (d : Deps) (hex : HexLaws d) (sha : KeccakLaws d) (bincode : BincodeLaws d)
    (secp : SecpLaws d) where
  abbrev signature_of : UnsignedTransaction → d.SecretKey → d.Signature
  signature_of tx key = d.sign_ecdsa_recoverable (secp.message (d.keccak (bincode.encoded tx))) key

  abbrev pub signature_bytes : UnsignedTransaction → d.SecretKey → Bytes
  signature_bytes tx key =
      let (id, compact) = d.signature_serialize_compact (signature_of tx key) in
      compact ++ (d.recovery_id_to_i32 id + 27) ∷ []

  message-ok :
      (tx : UnsignedTransaction)
      → d.message_from_slice (d.keccak (bincode.encoded tx))
        ≡ ok (secp.message (d.keccak (bincode.encoded tx)))
  message-ok tx =
      secp.message-ok (d.keccak (bincode.encoded tx)) (sha.length-keccak (bincode.encoded tx))

  -- Signing goes through.
  pub sign_transaction-ok :
      {E : Type 0} (tx : UnsignedTransaction) (key : d.SecretKey)
      → sign_transaction d {E = E} tx key ≡ ok (d.hex_encode (signature_bytes tx key))
  unfolding sign_transaction
  sign_transaction-ok {E} tx key =
      let (id, compact) = d.signature_serialize_compact (signature_of tx key) in
      ground
        (arith, compute_transaction_hash-ok d bincode {E = E} tx, message-ok tx, secp.to_i32-le id)

  -- The signature does not depend on the type of the caller's errors.
  pub sign_transaction-same :
      {E F : Type 0} (tx : UnsignedTransaction) (key : d.SecretKey) {signature : Text}
      → sign_transaction d {E = E} tx key ≡ ok signature
      → sign_transaction d {E = F} tx key ≡ ok signature
  sign_transaction-same {E} {F} tx key h =
      ground (arith, sign_transaction-ok {E = E} tx key, sign_transaction-ok {E = F} tx key)

  recover_signer-ok :
      (tx : UnsignedTransaction) (key : d.SecretKey)
      → recover_signer d (secp.message (d.keccak (bincode.encoded tx))) (signature_bytes tx key)
        ≡ ok (public_key_to_address d (d.public_key_from_secret_key key))
  unfolding recover_signer
  recover_signer-ok tx key =
      let sig = signature_of tx key in
      let (id, compact) = d.signature_serialize_compact sig in
      let (len, last, front) =
        compact_and_last compact (d.recovery_id_to_i32 id + 27) (secp.length-compact sig) in
      recover_signer-steps d (secp.message (d.keccak (bincode.encoded tx))) (signature_bytes tx key)
        (d.recovery_id_to_i32 id) id sig (d.public_key_from_secret_key key) len last
        (secp.from_i32-to_i32 id) (rw front (secp.from_compact-serialize sig))
        (secp.recover-sign (secp.message (d.keccak (bincode.encoded tx))) key)

  -- With packages that keep their laws, signing goes through, and what has been signed with a key
  -- verifies and gives the address of that key.
  pub verify-sign :
      (tx : UnsignedTransaction) (key : d.SecretKey)
      → (signature : Text) × (sign_transaction d {E = SignatureError} tx key ≡ ok signature)
        × (verify_signature d (record { unsigned = tx; signature = signature })
            ≡ ok (public_key_to_address d (d.public_key_from_secret_key key)))
  unfolding verify_signature
  verify-sign tx key =
      let (id, compact) = d.signature_serialize_compact (signature_of tx key) in
      let bound : d.recovery_id_to_i32 id + 27 < 256 = omega (arith, secp.to_i32-le id) in
      let bytes : IsBytes (signature_bytes tx key) =
        All-append (λ b. b < 256) compact ((d.recovery_id_to_i32 id + 27) ∷ [])
          (secp.compact-IsBytes (signature_of tx key)) (bound, tt) in
      (
        d.hex_encode (signature_bytes tx key),
        sign_transaction-ok tx key,
        ground (
          arith,
          compute_transaction_hash-ok d bincode {E = SignatureError} tx,
          message-ok tx,
          hex.decode-encode (signature_bytes tx key) bytes,
          recover_signer-ok tx key,
        ),
      )
