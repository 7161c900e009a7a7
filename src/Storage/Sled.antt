-- ===== src/Storage/Sled.antt =====
-- `SledStorage` of state/storage.rs, over what it calls of sled and bincode.
use gravity_kvstore.Prelude.{
  ℕ, Text, Bytes, bytes_eq, Option, none, some, List, [], ◌∷◌, ◌++◌, Outcome, ok, err, panic,
  unwrap, map_err, ◌>>=◌, ascii,
}
use gravity_kvstore.Dict.{Dict, insert}
use gravity_kvstore.Types.{AccountId, AccountState, Block, StateRoot, TransactionReceipt}
use gravity_kvstore.Storage.{
  Storage, Stored, a_block, a_state_root, an_account_state, StorageError, failed_to_serialize,
  failed_to_save, failed_to_flush, failed_to_deserialize, failed_to_get, failed_to_save_receipts,
}
use gravity_kvstore.Storage.Keys.{block_key, state_root_key, account_key}

-- sled's `Db`: a write gives the database back.
pub record Sled : Type 1 where
  pub Db : Type 0
  pub insert : Bytes → Bytes → Db → Outcome Text (Unit {0}) × Db
  pub get : Bytes → Db → Outcome Text (Option Bytes)
  pub flush : Db → Outcome Text (Unit {0}) × Db
  -- one transaction that inserts these pairs in this order
  pub transaction : List (Bytes × Bytes) → Db → Outcome Text (Unit {0}) × Db

-- bincode, at the types that are stored. The receipt is written as a receipt, and read at the
-- type that `get_transaction_receipt` returns.
pub record Bincode : Type 0 where
  pub serialize_block : Block → Outcome Text Bytes
  pub deserialize_block : Bytes → Outcome Text Block
  pub serialize_receipt : TransactionReceipt → Outcome Text Bytes
  pub deserialize_option_receipt : Bytes → Outcome Text (Option TransactionReceipt)
  pub serialize_root : StateRoot → Outcome Text Bytes
  pub deserialize_root : Bytes → Outcome Text StateRoot
  pub serialize_account : AccountState → Outcome Text Bytes
  pub deserialize_account : Bytes → Outcome Text AccountState

module _ (sled : Sled) where
  -- `SledStorage`
  pub record SledStorage : Type 0 where
    pub db : sled.Db

  -- `SledStorage::new`; `sled::open` is the argument `sled_open`.
  unfoldable pub new : (Text → Outcome Text sled.Db) → Text → Outcome Text SledStorage
  new sled_open path = do
    db ← map_err (λ e. ascii "Failed to open database: " ++ e) (sled_open path)
    ok (record { db = db })

  -- `self.db.insert(…).map_err(…)?; self.db.flush().map_err(…)?; Ok(())`
  unfoldable pub insert_and_flush :
      Stored → Bytes → Bytes → sled.Db → Outcome StorageError (Unit {0}) × sled.Db
  insert_and_flush kind key value db =
      let (inserted, db') = sled.insert key value db in
      let (flushed, db'') = sled.flush db' in
      elim inserted [
        | ok _ ↦ (map_err failed_to_flush flushed, db'')
        | err e ↦ (err (failed_to_save kind e), db')
        | panic ↦ (panic, db')
      ]

  -- The four `save_…` and `get_…` that differ in the type alone.
  unfoldable pub save :
      Stored → Bytes → Outcome Text Bytes → sled.Db → Outcome StorageError (Unit {0}) × sled.Db
  save kind key (ok encoded) db = insert_and_flush kind key encoded db
  save kind key (err e) db = (err (failed_to_serialize kind e), db)
  save kind key panic db = (panic, db)

  unfoldable pub load :
      {A : Type 0}
      → Stored
      → (Bytes → Outcome Text A)
      → Bytes
      → sled.Db
      → Outcome StorageError (Option A)
  load kind deserialize key db = map_err (failed_to_get kind) (sled.get key db) >>= elim [
    | none ↦ ok none
    | some bytes ↦ (do
      value ← map_err (failed_to_deserialize kind) (deserialize bytes)
      ok (some value))
  ]

module _ (sled : Sled) (code : Bincode) where
  unfoldable pub save_block : Block → sled.Db → Outcome StorageError (Unit {0}) × sled.Db
  save_block block db =
      save sled a_block (block_key block.header.number) (code.serialize_block block) db

  unfoldable pub get_block : ℕ → sled.Db → Outcome StorageError (Option Block)
  get_block number db = load sled a_block code.deserialize_block (block_key number) db

  -- The `collect` into a `HashMap`, with `expect` on each encoding: a later receipt of the same
  -- hash replaces an earlier one.
  unfoldable pub encode_receipts :
      {E : Type 0} → List TransactionReceipt → Dict Bytes Bytes → Outcome E (Dict Bytes Bytes)
  encode_receipts [] encodes = ok encodes
  encode_receipts (receipt ∷ receipts) encodes = do
    encoded ← unwrap (code.serialize_receipt receipt)
    encode_receipts receipts (insert receipt.transaction_hash encoded encodes)

  unfoldable pub save_transaction_receipts :
      List TransactionReceipt → sled.Db → Outcome StorageError (Unit {0}) × sled.Db
  save_transaction_receipts receipts db =
      let encodes : Outcome StorageError (Dict Bytes Bytes) = encode_receipts receipts [] in
      elim encodes [
        | ok pairs ↦
            let (done, db') = sled.transaction pairs db in
            (map_err (λ _. failed_to_save_receipts) done, db')
        | err e ↦ (err e, db)
        | panic ↦ (panic, db)
      ]

  -- The messages speak of a block. The annotation of the result makes bincode read an `Option`, not the receipt that was written.
  unfoldable pub get_transaction_receipt :
      Bytes → sled.Db → Outcome StorageError (Option TransactionReceipt)
  get_transaction_receipt transaction_hash db =
      map_err (failed_to_get a_block) (sled.get transaction_hash db) >>= elim [
        | none ↦ ok none
        | some bytes ↦
            map_err (failed_to_deserialize a_block) (code.deserialize_option_receipt bytes)
      ]

  unfoldable pub save_state_root :
      ℕ → StateRoot → sled.Db → Outcome StorageError (Unit {0}) × sled.Db
  save_state_root number root db =
      save sled a_state_root (state_root_key number) (code.serialize_root root) db

  unfoldable pub get_state_root : ℕ → sled.Db → Outcome StorageError (Option StateRoot)
  get_state_root number db = load sled a_state_root code.deserialize_root (state_root_key number) db

  unfoldable pub save_account_state :
      AccountId → AccountState → sled.Db → Outcome StorageError (Unit {0}) × sled.Db
  save_account_state account_id account db =
      save sled an_account_state (account_key account_id) (code.serialize_account account) db

  unfoldable pub get_account_state :
      AccountId → sled.Db → Outcome StorageError (Option AccountState)
  get_account_state account_id db =
      load sled an_account_state code.deserialize_account (account_key account_id) db

  -- `impl Storage for SledStorage`
  unfoldable pub sled_storage : Storage sled.Db
  sled_storage = record {
    save_block = save_block;
    get_block = get_block;
    save_transaction_receipts = save_transaction_receipts;
    get_transaction_receipt = get_transaction_receipt;
    save_state_root = save_state_root;
    get_state_root = get_state_root;
    save_account_state = save_account_state;
    get_account_state = get_account_state;
  }
