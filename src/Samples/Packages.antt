-- ===== src/Samples/Packages.antt =====
-- Concrete packages: two keys, signatures that name their key, a checksum for the digest, and the
-- overflow checks of the release profile, which are off.
use gravity_kvstore.Prelude.{
  ℕ, ◌+◌, ◌*◌, ◌%◌, ◌≤◌, ◌≡◌, refl, ap, ltb, ◌==◌, Bool, true, false, if◌then◌else◌, Text, Bytes,
  [], ◌∷◌, ◌++◌, Outcome, ok, err, arith, length, get_or, replicate, IsBytes, ascii,
}
use gravity_kvstore.Types.{UnsignedTransaction, Transaction}
use gravity_kvstore.Types.Deps.{
  Deps, HexLaws, KeccakLaws, JsonLaws, VerifiedLaws, BincodeLaws, SecpLaws, ResultLaws,
}
use gravity_kvstore.Crypto.Panics.{RecoveryIdLaws}
use gravity_kvstore.Samples.Hex.{encode, decode, decode-encode, decode-returns}
use gravity_kvstore.Samples.Wire.{write_txn, read_txn, read_txn-write_txn}

pub record Verified : Type 0 where
  pub bytes : Bytes
  pub sender : Bytes
  pub seq_number : ℕ
  pub hash : Bytes

abbrev checksum : ℕ → Bytes → ℕ
checksum acc [] = acc
checksum acc (b ∷ bs) = checksum ((acc * 31 + b) % 256) bs

abbrev digest : Bytes → Bytes
digest b =
    0
    ∷ 0
    ∷ 0
    ∷ 0
    ∷ 0
    ∷ 0
    ∷ 0
    ∷ 0
    ∷ 0
    ∷ 0
    ∷ 0
    ∷ 0
    ∷ 0
    ∷ 0
    ∷ 0
    ∷ 0
    ∷ 0
    ∷ 0
    ∷ 0
    ∷ 0
    ∷ 0
    ∷ 0
    ∷ 0
    ∷ 0
    ∷ 0
    ∷ 0
    ∷ 0
    ∷ 0
    ∷ 0
    ∷ 0
    ∷ 0
    ∷ (checksum 0 b % 256)
    ∷ []

abbrev bit : Bool → ℕ
bit true = 1
bit false = 0

abbrev zeros63 : Bytes
zeros63 = replicate 63 0

abbrev read_id : ℕ → Outcome Text (Unit {0})
read_id n = if ltb n 4 then ok tt else err (ascii "invalid recovery id")

abbrev unsigned_bytes : UnsignedTransaction → Bytes
unsigned_bytes tx =
    write_txn (record { txn = record { unsigned = tx; signature = [] }; address = [] })

abbrev transaction_bytes : Transaction → Bytes
transaction_bytes tx = write_txn (record { txn = tx; address = [] })

abbrev pub packages : Deps
packages = record {
  overflow_checks = false;
  hex_encode = encode;
  hex_decode = decode;
  keccak = digest;
  json_to_vec = λ t. ok (write_txn t);
  json_from_slice = λ b. ok (read_txn b);
  bincode_unsigned = λ tx. ok (unsigned_bytes tx);
  bincode_transaction = λ tx. ok (transaction_bytes tx);
  finish = checksum 7;
  iter = λ entries. entries;
  VerifiedTxn = Verified;
  verified_new = λ b a n c h. record { bytes = b; sender = a; seq_number = n; hash = h };
  verified_bytes = λ v. v.bytes;
  verified_sender = λ v. v.sender;
  verified_seq_number = λ v. v.seq_number;
  verified_committed_hash = λ v. v.hash;
  hash_to_fixed_array = digest;
  SecretKey = Bool;
  PublicKey = Bool;
  Message = Bytes;
  RecoveryId = Unit {0};
  Signature = Bool;
  secret_key_from_slice = λ b. if length b == 1 then ok (get_or b 0 0 == 1) else err [];
  public_key_from_secret_key = λ k. k;
  serialize_uncompressed = λ k. 4 ∷ bit k ∷ [];
  message_from_slice = λ b. if length b == 32 then ok b else err [];
  recovery_id_from_i32 = read_id;
  recovery_id_to_i32 = λ _. 0;
  signature_from_compact = λ b _. ok (get_or b 63 0 == 1);
  signature_serialize_compact = λ s. (tt, zeros63 ++ bit s ∷ []);
  sign_ecdsa_recoverable = λ _ k. k;
  recover_ecdsa = λ _ s. ok s;
}

pub hex_laws : HexLaws packages
hex_laws = record { decode-encode = decode-encode }

digest-IsBytes : (b : Bytes) → IsBytes (digest b)
digest-IsBytes b = omega arith

pub keccak_laws : KeccakLaws packages
keccak_laws = record { length-keccak = λ b. refl; keccak-IsBytes = digest-IsBytes }

abbrev pub json_laws : JsonLaws packages
json_laws = record {
  written = write_txn;
  to_vec-ok = λ t. refl;
  from_slice-written = λ t. ap ok (read_txn-write_txn t);
}

pub verified_laws : VerifiedLaws packages
verified_laws = record {
  bytes-new = λ b a n c h. refl;
  sender-new = λ b a n c h. refl;
  seq_number-new = λ b a n c h. refl;
}

abbrev pub bincode_laws : BincodeLaws packages
bincode_laws = record {
  encoded = unsigned_bytes;
  bincode-ok = λ t. refl;
  encoded_transaction = transaction_bytes;
  bincode_transaction-ok = λ t. refl;
}

message_ok : (b : Bytes) → length b ≡ 32 → packages.message_from_slice b ≡ ok b
message_ok b h = rw h

compact_IsBytes : (s : Bool) → IsBytes (zeros63 ++ bit s ∷ [])
compact_IsBytes true = omega arith
compact_IsBytes false = omega arith

compact_read : (s : Bool) → packages.signature_from_compact (zeros63 ++ bit s ∷ []) tt ≡ ok s
compact_read true = refl
compact_read false = refl

pub secp_laws : SecpLaws packages
secp_laws = record {
  message = λ b. b;
  message-ok = message_ok;
  to_i32-le = λ r. omega arith;
  from_i32-to_i32 = λ r. refl;
  length-compact = λ s. refl;
  compact-IsBytes = compact_IsBytes;
  from_compact-serialize = compact_read;
  recover-sign = λ m k. refl;
}

read_id-large : (n : ℕ) → 4 ≤ n → read_id n ≡ err (ascii "invalid recovery id")
read_id-large n h = ground arith

pub recovery_id_laws : RecoveryIdLaws packages
recovery_id_laws = record {
  reason = λ n. ascii "invalid recovery id";
  from_i32-large = read_id-large;
}

pub result_laws : ResultLaws packages
result_laws = record {
  hex_decode-returns = decode-returns;
  secret_key-returns = λ b e. ground arith;
}
