-- ===== src/Types/Deps.antt =====
-- What the code takes from other packages: the operations of hex, sha3, serde_json, bincode,
-- secp256k1 and gravity_sdk that it calls, the hash and the iteration order that the standard
-- library leaves unspecified, and the overflow checks of the build profile. None of it is defined
-- here. The records of laws below state what those packages document.
use gravity_kvstore.Prelude.{
  ℕ, Bool, List, Text, Bytes, Outcome, ok, panic, ◌≡◌, ◌≢◌, ◌≤◌, length, IsBytes,
}
use gravity_kvstore.Types.{Transaction, UnsignedTransaction, TransactionWithAccount}

pub record Deps : Type 1 where
  -- the build profile
  pub overflow_checks : Bool
  -- hex
  pub hex_encode : Bytes → Text
  pub hex_decode : Text → Outcome Text Bytes
  -- sha3: one `Keccak256` over all that `update` was given
  pub keccak : Bytes → Bytes
  -- serde_json
  pub json_to_vec : TransactionWithAccount → Outcome Text Bytes
  pub json_from_slice : Bytes → Outcome Text TransactionWithAccount
  -- bincode
  pub bincode_unsigned : UnsignedTransaction → Outcome Text Bytes
  pub bincode_transaction : Transaction → Outcome Text Bytes
  -- std: `DefaultHasher::finish` over the bytes written, and the order of `HashMap::iter`
  pub finish : Bytes → ℕ
  pub iter : List (Text × Text) → List (Text × Text)
  -- gravity_sdk: `VerifiedTxn` and the block hash of its bytes
  pub VerifiedTxn : Type 0
  -- bytes, sender, sequence number, chain id, committed hash
  pub verified_new : Bytes → Bytes → ℕ → ℕ → Bytes → VerifiedTxn
  pub verified_bytes : VerifiedTxn → Bytes
  pub verified_sender : VerifiedTxn → Bytes
  pub verified_seq_number : VerifiedTxn → ℕ
  pub verified_committed_hash : VerifiedTxn → Bytes
  pub hash_to_fixed_array : Bytes → Bytes
  -- secp256k1
  pub SecretKey : Type 0
  pub PublicKey : Type 0
  pub Message : Type 0
  pub RecoveryId : Type 0
  pub Signature : Type 0
  pub secret_key_from_slice : Bytes → Outcome Text SecretKey
  pub public_key_from_secret_key : SecretKey → PublicKey
  pub serialize_uncompressed : PublicKey → Bytes
  pub message_from_slice : Bytes → Outcome Text Message
  pub recovery_id_from_i32 : ℕ → Outcome Text RecoveryId
  pub recovery_id_to_i32 : RecoveryId → ℕ
  pub signature_from_compact : Bytes → RecoveryId → Outcome Text Signature
  pub signature_serialize_compact : Signature → RecoveryId × Bytes
  pub sign_ecdsa_recoverable : Message → SecretKey → Signature
  pub recover_ecdsa : Message → Signature → Outcome Text PublicKey

-- hex: two characters for a byte, and decoding undoes encoding.
pub record HexLaws (d : Deps) : Type 0 where
  pub decode-encode : (b : Bytes) → IsBytes b → d.hex_decode (d.hex_encode b) ≡ ok b

-- sha3: a digest has 32 bytes.
pub record KeccakLaws (d : Deps) : Type 0 where
  pub length-keccak : (b : Bytes) → length (d.keccak b) ≡ 32
  pub keccak-IsBytes : (b : Bytes) → IsBytes (d.keccak b)

-- serde_json: what it has written it reads back.
pub record JsonLaws (d : Deps) : Type 0 where
  pub written : TransactionWithAccount → Bytes
  pub to_vec-ok : (t : TransactionWithAccount) → d.json_to_vec t ≡ ok (written t)
  pub from_slice-written : (t : TransactionWithAccount) → d.json_from_slice (written t) ≡ ok t

-- gravity_sdk: the fields of a `VerifiedTxn` are those that it was made of.
pub record VerifiedLaws (d : Deps) : Type 0 where
  pub bytes-new :
      (b a : Bytes) (n c : ℕ) (h : Bytes) → d.verified_bytes (d.verified_new b a n c h) ≡ b
  pub sender-new :
      (b a : Bytes) (n c : ℕ) (h : Bytes) → d.verified_sender (d.verified_new b a n c h) ≡ a
  pub seq_number-new :
      (b a : Bytes) (n c : ℕ) (h : Bytes) → d.verified_seq_number (d.verified_new b a n c h) ≡ n

-- bincode: these types serialize.
pub record BincodeLaws (d : Deps) : Type 0 where
  pub encoded : UnsignedTransaction → Bytes
  pub bincode-ok : (t : UnsignedTransaction) → d.bincode_unsigned t ≡ ok (encoded t)
  pub encoded_transaction : Transaction → Bytes
  pub bincode_transaction-ok :
      (t : Transaction) → d.bincode_transaction t ≡ ok (encoded_transaction t)

-- secp256k1: a digest of 32 bytes is a message, ids are 0 to 3, the compact form has 64 bytes and
-- is read back, and recovery from a signature gives the signer's key.
pub record SecpLaws (d : Deps) : Type 0 where
  pub message : Bytes → d.Message
  pub message-ok : (b : Bytes) → length b ≡ 32 → d.message_from_slice b ≡ ok (message b)
  pub to_i32-le : (r : d.RecoveryId) → d.recovery_id_to_i32 r ≤ 3
  pub from_i32-to_i32 : (r : d.RecoveryId) → d.recovery_id_from_i32 (d.recovery_id_to_i32 r) ≡ ok r
  pub length-compact : (s : d.Signature) → length (d.signature_serialize_compact s).1 ≡ 64
  pub compact-IsBytes : (s : d.Signature) → IsBytes (d.signature_serialize_compact s).1
  pub from_compact-serialize :
      (s : d.Signature)
      → let (r, b) = d.signature_serialize_compact s in d.signature_from_compact b r ≡ ok s
  pub recover-sign :
      (m : d.Message) (k : d.SecretKey)
      → d.recover_ecdsa m (d.sign_ecdsa_recoverable m k) ≡ ok (d.public_key_from_secret_key k)

-- hex and secp256k1: decoding and reading a key return a `Result`; they do not panic.
pub record ResultLaws (d : Deps) : Type 0 where
  pub hex_decode-returns : (t : Text) → d.hex_decode t ≢ panic
  pub secret_key-returns : (b : Bytes) → d.secret_key_from_slice b ≢ panic
