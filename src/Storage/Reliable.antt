-- ===== src/Storage/Reliable.antt =====
-- What sled and bincode document, for a database that works: writes go through, a read finds the
-- last write, and what bincode has written it reads back. The receipt is left out: it is not read
-- at the type at which it is written.
use gravity_kvstore.Prelude.{
  Bytes, bytes_eq, bytes_beq, Option, some, List, [], ◌∷◌, ok, ◌≡◌, if◌then◌else◌,
}
use gravity_kvstore.Types.{AccountState, Block, StateRoot, TransactionReceipt}
use gravity_kvstore.Storage.Sled.{Sled, Bincode}

-- The value that a batch of insertions leaves under a key.
abbrev pub last_of : Bytes → List (Bytes × Bytes) → Option Bytes → Option Bytes
last_of k [] old = old
last_of k ((j, v) ∷ pairs) old = last_of k pairs (if bytes_beq j k then some v else old)

pub record SledLaws (sled : Sled) : Type 0 where
  pub content : sled.Db → Bytes → Option Bytes
  pub get-content : (k : Bytes) (db : sled.Db) → sled.get k db ≡ ok (content db k)
  pub inserted : Bytes → Bytes → sled.Db → sled.Db
  pub insert-ok : (k v : Bytes) (db : sled.Db) → sled.insert k v db ≡ (ok tt, inserted k v db)
  pub content-inserted :
      (k v : Bytes) (db : sled.Db) (j : Bytes)
      → content (inserted k v db) j ≡ (if bytes_beq k j then some v else content db j)
  pub flushed : sled.Db → sled.Db
  pub flush-ok : (db : sled.Db) → sled.flush db ≡ (ok tt, flushed db)
  pub content-flushed : (db : sled.Db) (j : Bytes) → content (flushed db) j ≡ content db j
  pub committed : List (Bytes × Bytes) → sled.Db → sled.Db
  pub transaction-ok :
      (pairs : List (Bytes × Bytes)) (db : sled.Db)
      → sled.transaction pairs db ≡ (ok tt, committed pairs db)
  pub content-committed :
      (pairs : List (Bytes × Bytes)) (db : sled.Db) (j : Bytes)
      → content (committed pairs db) j ≡ last_of j pairs (content db j)

pub record CodeLaws (code : Bincode) : Type 0 where
  pub block_bytes : Block → Bytes
  pub serialize_block-ok : (b : Block) → code.serialize_block b ≡ ok (block_bytes b)
  pub deserialize_block-bytes : (b : Block) → code.deserialize_block (block_bytes b) ≡ ok b
  pub root_bytes : StateRoot → Bytes
  pub serialize_root-ok : (r : StateRoot) → code.serialize_root r ≡ ok (root_bytes r)
  pub deserialize_root-bytes : (r : StateRoot) → code.deserialize_root (root_bytes r) ≡ ok r
  pub account_bytes : AccountState → Bytes
  pub serialize_account-ok : (a : AccountState) → code.serialize_account a ≡ ok (account_bytes a)
  pub deserialize_account-bytes :
      (a : AccountState) → code.deserialize_account (account_bytes a) ≡ ok a
  pub receipt_bytes : TransactionReceipt → Bytes
  pub serialize_receipt-ok :
      (r : TransactionReceipt) → code.serialize_receipt r ≡ ok (receipt_bytes r)
