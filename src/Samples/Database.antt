-- ===== src/Samples/Database.antt =====
-- A concrete database, a table in memory, and the encodings of what is stored.
use gravity_kvstore.Prelude.{
  ℕ, zero, suc, ◌%◌, ◌≤◌, ◌≡◌, refl, ap, Text, Bytes, bytes_eq, Option, none, List, [], ◌∷◌,
  Outcome, ok, err, arith, ascii,
}
use gravity_kvstore.Dict
use gravity_kvstore.Dict.{Dict}
use gravity_kvstore.Dict.Laws.{lookup-insert}
use gravity_kvstore.Types.{TransactionReceipt}
use gravity_kvstore.Storage.Sled.{Sled, Bincode}
use gravity_kvstore.Storage.Reliable.{SledLaws, CodeLaws, last_of}
use gravity_kvstore.Storage.Receipt.{ReceiptFormat}
use gravity_kvstore.Samples.Wire.{
  write_block, read_block, read_block-write_block, write_account, read_account,
  read_account-write_account,
}

abbrev insert_all : List (Bytes × Bytes) → Dict Bytes Bytes → Dict Bytes Bytes
insert_all [] db = db
insert_all ((k, v) ∷ pairs) db = insert_all pairs (Dict.insert k v db)

abbrev pub database : Sled
database = record {
  Db = Dict Bytes Bytes;
  insert = λ k v db. (ok tt, Dict.insert k v db);
  get = λ k db. ok (Dict.lookup k db);
  flush = λ db. (ok tt, db);
  transaction = λ pairs db. (ok tt, insert_all pairs db);
}

pub lookup-insert_all :
    (pairs : List (Bytes × Bytes)) (db : Dict Bytes Bytes) (j : Bytes)
    → Dict.lookup j (insert_all pairs db) ≡ last_of j pairs (Dict.lookup j db)
lookup-insert_all [] db j = refl
lookup-insert_all ((k, v) ∷ pairs) db j =
    rw (lookup-insert_all pairs (Dict.insert k v db) j, lookup-insert k j v db)

abbrev pub database_laws : SledLaws database
database_laws = record {
  content = λ db k. Dict.lookup k db;
  get-content = λ k db. refl;
  inserted = λ k v db. Dict.insert k v db;
  insert-ok = λ k v db. refl;
  content-inserted = λ k v db j. lookup-insert k j v db;
  flushed = λ db. db;
  flush-ok = λ db. refl;
  content-flushed = λ db j. refl;
  committed = insert_all;
  transaction-ok = λ pairs db. refl;
  content-committed = lookup-insert_all;
}

-- The tag of an option.
abbrev read_option : Bytes → Outcome Text (Option TransactionReceipt)
read_option [] = err (ascii "unexpected end of file")
read_option (zero ∷ rest) = ok none
read_option (suc n ∷ rest) = err (ascii "invalid tag")

abbrev receipt_bytes : TransactionReceipt → Bytes
receipt_bytes r = (r.transaction.unsigned.nonce % 256) ∷ r.transaction_hash

abbrev pub encodings : Bincode
encodings = record {
  serialize_block = λ b. ok (write_block b);
  deserialize_block = λ bytes. ok (read_block bytes);
  serialize_receipt = λ r. ok (receipt_bytes r);
  deserialize_option_receipt = read_option;
  serialize_root = λ r. ok r.bytes;
  deserialize_root = λ bytes. ok (record { bytes = bytes });
  serialize_account = λ a. ok (write_account a);
  deserialize_account = λ bytes. ok (read_account bytes);
}

abbrev pub encoding_laws : CodeLaws encodings
encoding_laws = record {
  block_bytes = write_block;
  serialize_block-ok = λ b. refl;
  deserialize_block-bytes = λ b. ap ok (read_block-write_block b);
  root_bytes = λ r. r.bytes;
  serialize_root-ok = λ r. refl;
  deserialize_root-bytes = λ r. refl;
  account_bytes = write_account;
  serialize_account-ok = λ a. refl;
  deserialize_account-bytes = λ a. ap ok (read_account-write_account a);
  receipt_bytes = receipt_bytes;
  serialize_receipt-ok = λ r. refl;
}

pub read_option-invalid :
    (tag : ℕ) (rest : Bytes) → 2 ≤ tag → read_option (tag ∷ rest) ≡ err (ascii "invalid tag")
read_option-invalid zero rest h = absurd (omega arith)
read_option-invalid (suc n) rest h = refl

pub receipt_format : ReceiptFormat encodings encoding_laws
receipt_format = record {
  tail_bytes = λ r. r.transaction_hash;
  receipt-head = λ r. refl;
  option-none = λ rest. refl;
  invalid_tag = λ tag. ascii "invalid tag";
  option-invalid = read_option-invalid;
}
