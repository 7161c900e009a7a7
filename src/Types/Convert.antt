-- ===== src/Types/Convert.antt =====
-- The functions of txpool/types.rs: account addresses, and the way to a `VerifiedTxn` and back.
use gravity_kvstore.Prelude.{
  ℕ, ◌==◌, if◌then◌else◌, Text, Bytes, ◌++◌, Outcome, ok, err, unwrap, ◌>>=◌, length, replicate,
}
use gravity_kvstore.Types.{TransactionWithAccount}
use gravity_kvstore.Types.Deps.{Deps}

-- "Invalid length: expected 20 bytes, got {}"
pub data ConvertError : Type 0 where
  invalid_length : ℕ → ConvertError

unfoldable pub sequence_number : TransactionWithAccount → ℕ
sequence_number t = t.txn.unsigned.nonce

module _ (d : Deps) where
  unfoldable pub convert_account : Text → Outcome ConvertError Bytes
  convert_account acc = do
    acc_bytes ← unwrap (d.hex_decode acc)
    if length acc_bytes == 20
        then ok (replicate 12 0 ++ acc_bytes)
        else err (invalid_length (length acc_bytes))

  unfoldable pub account : {E : Type 0} → TransactionWithAccount → Outcome E Bytes
  account t = unwrap (convert_account t.address)

  unfoldable pub to_bytes : {E : Type 0} → TransactionWithAccount → Outcome E Bytes
  to_bytes t = unwrap (d.json_to_vec t)

  unfoldable pub from_bytes : {E : Type 0} → Bytes → Outcome E TransactionWithAccount
  from_bytes b = unwrap (d.json_from_slice b)

  -- `From<VerifiedTxn> for TransactionWithAccount`
  unfoldable pub from_verified : {E : Type 0} → d.VerifiedTxn → Outcome E TransactionWithAccount
  from_verified v = unwrap (d.json_from_slice (d.verified_bytes v))

  unfoldable pub into_verified : {E : Type 0} → TransactionWithAccount → Outcome E d.VerifiedTxn
  into_verified t = do
    bytes ← to_bytes t
    let hash = d.hash_to_fixed_array bytes
    sender ← account t
    ok (d.verified_new bytes sender t.txn.unsigned.nonce 0 hash)
