-- ===== src/Tests/Crypto.antt =====
-- Runs of crypto.rs and of the conversions of txpool/types.rs.
use gravity_kvstore.Prelude.{
  [], some, length, Bytes, ◌∷◌, ◌≡◌, refl, arith, inl, true, Text, ok, panic, replicate,
}
use gravity_kvstore.Types.{Transaction}
use gravity_kvstore.Crypto.{
  SignatureError, sign_transaction, verify_signature, public_key_to_address,
}
use gravity_kvstore.Crypto.Signing.{verify-sign}
use gravity_kvstore.Crypto.Merkle.{compute_merkle_root}
use gravity_kvstore.Crypto.Merkle.Ends.{compute_merkle_root-ends}
use gravity_kvstore.Crypto.Merkle.Twins.{compute_merkle_root-twins}
use gravity_kvstore.Crypto.Panics.{verify_signature-panics}
use gravity_kvstore.Samples.Packages.{
  packages, hex_laws, keccak_laws, bincode_laws, secp_laws, recovery_id_laws,
}
use gravity_kvstore.Samples.Hex.{encode}
use gravity_kvstore.Tests.Fixtures.{alice, pay, pay_self, put}

verify-sign_example :
    (signature : Text) × (sign_transaction packages {E = SignatureError} pay.txn.unsigned true
      ≡ ok signature)
    × (verify_signature packages (record { unsigned = pay.txn.unsigned; signature = signature })
        ≡ ok alice)
unfolding public_key_to_address
verify-sign_example =
    verify-sign packages hex_laws keccak_laws bincode_laws secp_laws pay.txn.unsigned true

-- A signature that ends with the byte 0.
abbrev unsound : Transaction
unsound = record { unsigned = pay.txn.unsigned; signature = encode (replicate 65 0) }

verify_signature-panics_example : verify_signature packages unsound ≡ panic
verify_signature-panics_example =
    verify_signature-panics packages recovery_id_laws keccak_laws bincode_laws secp_laws unsound
      (replicate 65 0) refl refl (omega arith) (inl (omega arith))

compute_merkle_root-ends_example :
    (root : Bytes) × (compute_merkle_root packages {E = ⊥} (pay.txn ∷ pay_self.txn ∷ put.txn ∷ [])
      ≡ ok (some root))
    × (length root ≡ 32)
compute_merkle_root-ends_example =
    compute_merkle_root-ends packages keccak_laws bincode_laws ⊥
      (pay.txn ∷ pay_self.txn ∷ put.txn ∷ [])

compute_merkle_root-twins_example :
    compute_merkle_root packages {E = ⊥} (pay.txn ∷ pay_self.txn ∷ put.txn ∷ put.txn ∷ [])
    ≡ compute_merkle_root packages (pay.txn ∷ pay_self.txn ∷ put.txn ∷ [])
compute_merkle_root-twins_example =
    compute_merkle_root-twins packages keccak_laws bincode_laws ⊥ pay.txn (pay_self.txn ∷ [])
      put.txn refl
