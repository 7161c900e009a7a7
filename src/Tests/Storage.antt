-- ===== src/Tests/Storage.antt =====
-- Runs of state/storage.rs.
use gravity_kvstore.Prelude.{
  some, ℕ, ◌≡◌, ◌≢◌, refl, arith, ◌⊎◌, true, none, [], ◌∷◌, ok, err, replicate,
}
use gravity_kvstore.Types.{TransactionReceipt}
use gravity_kvstore.Storage.{StorageError, IsStorage}
use gravity_kvstore.Storage.Keys.{block_key, state_root_key, account_key}
use gravity_kvstore.Storage.Distinct.{keys_distinct}
use gravity_kvstore.Storage.Sled.{sled_storage, save_transaction_receipts, get_transaction_receipt}
use gravity_kvstore.Storage.Contract.{sled_storage-IsStorage}
use gravity_kvstore.Storage.Accounts.{get_account_state-save}
use gravity_kvstore.Storage.Sled.{save_account_state, get_account_state, get_block, get_state_root}
use gravity_kvstore.Storage.Receipt.{receipt_lost}
use gravity_kvstore.Samples.Database.{
  database, database_laws, encodings, encoding_laws, receipt_format,
}
use gravity_kvstore.Tests.Fixtures.{rich, alice, pay}

keys_distinct_example :
    (block_key 1 ≢ state_root_key 1)
    × (block_key 1 ≢ account_key (record { text = alice }))
    × (state_root_key 1 ≢ account_key (record { text = alice }))
    × (block_key 1 ≢ replicate 32 0)
    × (state_root_key 1 ≢ replicate 32 0)
    × (account_key (record { text = alice }) ≢ replicate 32 0)
keys_distinct_example =
    keys_distinct 1 1 (record { text = alice }) (replicate 32 0) refl (omega arith)

sled_storage-IsStorage_example : IsStorage (sled_storage database encodings)
sled_storage-IsStorage_example =
    sled_storage-IsStorage database encodings database_laws encoding_laws

-- The receipt of the first payment of an account.
abbrev first_receipt : TransactionReceipt
first_receipt = record {
  transaction = pay.txn;
  transaction_hash = replicate 32 9;
  status = true;
  gas_used = 21000;
  state_updates = [];
  logs = [];
}

receipt_lost_example :
    let (saved, db') = save_transaction_receipts database encodings (first_receipt ∷ []) [] in
    let found = get_transaction_receipt database encodings (replicate 32 9) db' in
    (saved ≡ ok tt)
    × ((◌≡◌ {A = ℕ} 0 0) × (found ≡ ok none) ⊎ ((e : StorageError) × (found ≡ err e)))
receipt_lost_example =
    receipt_lost database encodings database_laws encoding_laws receipt_format first_receipt []
      (λ e. omega arith)

get_account_state-save_example :
    let (done, db') = save_account_state database encodings (record { text = alice }) rich [] in
    (done ≡ ok tt)
    × (get_account_state database encodings (record { text = alice }) db' ≡ ok (some rich))
    × (get_block database encodings 1 db' ≡ get_block database encodings 1 [])
    × (get_state_root database encodings 1 db' ≡ get_state_root database encodings 1 [])
get_account_state-save_example =
    get_account_state-save database encodings database_laws encoding_laws (record { text = alice })
      (record { text = alice }) rich 1 []
