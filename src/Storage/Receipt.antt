-- ===== src/Storage/Receipt.antt =====
-- The receipts of `SledStorage` in state/storage.rs are not read back: they are written as
-- receipts, and read as optional ones.
use gravity_kvstore.Prelude.{
  ℕ, ◌%◌, ◌≤◌, ◌≡◌, ◌≢◌, refl, Text, Bytes, bytes_eq, bytes_beq_refl, none, List, [], ◌∷◌, ok, err,
  map_err, arith, ◌⊎◌, inl, inr, eq_or_ne,
}
use gravity_kvstore.Types.{TransactionReceipt}
use gravity_kvstore.Storage.{StorageError, a_block, failed_to_deserialize}
use gravity_kvstore.Storage.Sled.{
  Sled, Bincode, encode_receipts, save_transaction_receipts, get_transaction_receipt,
}
use gravity_kvstore.Storage.Reliable.{SledLaws, CodeLaws}

-- bincode: a receipt begins with the nonce of its transaction in little-endian order; an option
-- begins with a byte that is 0 for none and 1 for some, and any other byte there is an error.
pub record ReceiptFormat (code : Bincode) (laws : CodeLaws code) : Type 0 where
  pub tail_bytes : TransactionReceipt → Bytes
  pub receipt-head :
      (r : TransactionReceipt)
      → laws.receipt_bytes r ≡ (r.transaction.unsigned.nonce % 256) ∷ tail_bytes r
  pub option-none : (rest : Bytes) → code.deserialize_option_receipt (0 ∷ rest) ≡ ok none
  pub invalid_tag : ℕ → Text
  pub option-invalid :
      (tag : ℕ) (rest : Bytes)
      → 2 ≤ tag
      → code.deserialize_option_receipt (tag ∷ rest) ≡ err (invalid_tag tag)

module _ (sled : Sled) (code : Bincode) (laws : SledLaws sled) (codes : CodeLaws code)
    (format : ReceiptFormat code codes) where
  save_receipt-ok :
      (r : TransactionReceipt) (db : sled.Db)
      → save_transaction_receipts sled code (r ∷ []) db
        ≡ (ok tt, laws.committed ((r.transaction_hash, codes.receipt_bytes r) ∷ []) db)
  unfolding save_transaction_receipts encode_receipts
  save_receipt-ok r db = ground (
    arith,
    codes.serialize_receipt-ok r,
    laws.transaction-ok ((r.transaction_hash, codes.receipt_bytes r) ∷ []) db,
  )

  read_receipt :
      (r : TransactionReceipt) (db : sled.Db)
      → get_transaction_receipt sled code r.transaction_hash
          (laws.committed ((r.transaction_hash, codes.receipt_bytes r) ∷ []) db)
        ≡ map_err (failed_to_deserialize a_block) (
            code.deserialize_option_receipt
              ((r.transaction.unsigned.nonce % 256) ∷ format.tail_bytes r))
  unfolding get_transaction_receipt
  read_receipt r db =
      let pairs : List (Bytes × Bytes) = (r.transaction_hash, codes.receipt_bytes r) ∷ [] in
      ground (
        arith,
        laws.get-content r.transaction_hash (laws.committed pairs db),
        laws.content-committed pairs db r.transaction_hash,
        bytes_beq_refl r.transaction_hash,
        format.receipt-head r,
      )

  -- Over a database and encodings that work, a receipt whose transaction's nonce does not leave 1
  -- when it is divided by 256 is saved, and is not read back: the read finds none, where the nonce
  -- leaves 0, or is an error.
  pub receipt_lost :
      (r : TransactionReceipt) (db : sled.Db)
      → r.transaction.unsigned.nonce % 256 ≢ 1
      → let (saved, db') = save_transaction_receipts sled code (r ∷ []) db in
        let found = get_transaction_receipt sled code r.transaction_hash db' in
        (saved ≡ ok tt)
        × ((r.transaction.unsigned.nonce % 256 ≡ 0) × (found ≡ ok none)
            ⊎ ((e : StorageError) × (found ≡ err e)))
  receipt_lost r db h =
      let tag = r.transaction.unsigned.nonce % 256 in
      let tail = format.tail_bytes r in
      rw (save_receipt-ok r db) (
        refl,
        elim (eq_or_ne tag 0) [
          | inl zero_tag ↦ inl (zero_tag, rw (read_receipt r db, zero_tag, format.option-none tail))
          | inr ne ↦ inr (
            failed_to_deserialize a_block (format.invalid_tag tag),
            rw (read_receipt r db, format.option-invalid tag tail (omega arith)),
          )
        ],
      )
