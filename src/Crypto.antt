-- ===== src/Crypto.antt =====
-- crypto.rs: the hash that a transaction is signed over, signatures, and addresses.
pub mod Merkle
pub mod Signing
pub mod Panics
use gravity_kvstore.Prelude.{
  ℕ, ◌+◌, ◌%◌, ◌==◌, if◌then◌else◌, Text, Bytes, List, [], ◌∷◌, ◌++◌, Outcome, ok, err, unwrap,
  map_err, ◌>>=◌, length, get_or, take, drop, u8_mod, add_wrap, sub_wrap,
}
use gravity_kvstore.Types.{Transaction, UnsignedTransaction}
use gravity_kvstore.Types.Deps.{Deps}

-- The messages of `verify_signature`, with what they format.
pub data SignatureError : Type 0 where
  invalid_message : Text → SignatureError
  invalid_signature_hex : Text → SignatureError
  invalid_signature_length : SignatureError
  invalid_recoverable_signature : SignatureError
  failed_to_recover : SignatureError

module _ (d : Deps) where
  pub record KeyPair : Type 0 where
    pub secret_key : d.SecretKey
    pub public_key : d.PublicKey

  -- What secp256k1 draws, with the operating system's random numbers, is the argument.
  unfoldable pub generate_keypair : d.SecretKey × d.PublicKey → KeyPair
  generate_keypair (secret_key, public_key) = record {
    secret_key = secret_key;
    public_key = public_key;
  }

  unfoldable pub compute_transaction_hash : {E : Type 0} → UnsignedTransaction → Outcome E Bytes
  compute_transaction_hash tx = do encoded ← unwrap (d.bincode_unsigned tx); ok (d.keccak encoded)

  unfoldable pub public_key_to_address : d.PublicKey → Text
  public_key_to_address public_key =
      d.hex_encode (drop 12 (d.keccak (drop 1 (d.serialize_uncompressed public_key))))

  -- `recovery_id.to_i32() as u8 + 27` stands behind the 64 bytes of the compact form.
  unfoldable pub sign_transaction :
      {E : Type 0} → UnsignedTransaction → d.SecretKey → Outcome E Text
  sign_transaction tx secret_key = do
    hash ← compute_transaction_hash tx
    message ← unwrap (d.message_from_slice hash)
    let (recovery_id, rec_sig_bytes) =
        d.signature_serialize_compact (d.sign_ecdsa_recoverable message secret_key)
    v ← add_wrap d.overflow_checks u8_mod (d.recovery_id_to_i32 recovery_id % u8_mod) 27
    ok (d.hex_encode (rec_sig_bytes ++ v ∷ []))

  -- `verify_signature` from the test of the length on.
  unfoldable pub recover_signer : d.Message → Bytes → Outcome SignatureError Text
  recover_signer message signature_bytes =
      if length signature_bytes == 65
      then (do
        v ← sub_wrap d.overflow_checks u8_mod (get_or signature_bytes 64 0) 27
        recovery_id ← unwrap (d.recovery_id_from_i32 v)
        signature ←
            map_err (λ _. invalid_recoverable_signature)
              (d.signature_from_compact (take 64 signature_bytes) recovery_id)
        public_key ← map_err (λ _. failed_to_recover) (d.recover_ecdsa message signature)
        ok (public_key_to_address public_key))
      else err invalid_signature_length

  unfoldable pub verify_signature : Transaction → Outcome SignatureError Text
  verify_signature tx = do
    hash ← compute_transaction_hash tx.unsigned
    message ← map_err invalid_message (d.message_from_slice hash)
    signature_bytes ← map_err invalid_signature_hex (d.hex_decode tx.signature)
    recover_signer message signature_bytes
