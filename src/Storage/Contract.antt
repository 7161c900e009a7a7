-- ===== src/Storage/Contract.antt =====
-- `SledStorage` of state/storage.rs meets the contract of `trait Storage`.
use gravity_kvstore.Prelude.{
  ℕ, ◌<◌, ◌≡◌, ◌≢◌, refl, ◌∙◌, sym, ap, Bytes, bytes_eq, bytes_beq_ne, some, List, [], ◌∷◌, ok,
  ◌==◌, if◌then◌else◌, length, All, u64_mod, arith,
}
use gravity_kvstore.Dict.{Dict, insert}
use gravity_kvstore.Types.{Block, StateRoot, TransactionReceipt}
use gravity_kvstore.Storage.{a_block, a_state_root, StorageError, IsStorage, HasHash}
use gravity_kvstore.Storage.Keys.{block_key, state_root_key}
use gravity_kvstore.Storage.Distinct.{length-block_key, length-state_root_key}
use gravity_kvstore.Storage.Sled.{
  Sled, Bincode, save_block, get_block, encode_receipts, save_transaction_receipts, save_state_root,
  get_state_root, sled_storage,
}
use gravity_kvstore.Storage.Reliable.{SledLaws, CodeLaws}
use gravity_kvstore.Storage.Content.{
  last_of-apart, insert-apart, block_key-test, root_key-test, keys_apart, save-ok, content-saved,
  load-eq-read_as, read_as, saved,
}

module _ (sled : Sled) (code : Bincode) (laws : SledLaws sled) (codes : CodeLaws code) where
  abbrev with_block : Block → sled.Db → sled.Db
  with_block b db = saved sled laws (block_key b.header.number) (codes.block_bytes b) db

  abbrev with_root : ℕ → StateRoot → sled.Db → sled.Db
  with_root n r db = saved sled laws (state_root_key n) (codes.root_bytes r) db

  save_block-with_block :
      (b : Block) (db : sled.Db) → save_block sled code b db ≡ (ok tt, with_block b db)
  unfolding save_block
  save_block-with_block b db = rw codes.serialize_block-ok (save-ok sled laws _ _ _ db)

  save_root-with_root :
      (n : ℕ) (r : StateRoot) (db : sled.Db)
      → save_state_root sled code n r db ≡ (ok tt, with_root n r db)
  unfolding save_state_root
  save_root-with_root n r db = rw codes.serialize_root-ok (save-ok sled laws _ _ _ db)

  get_block-content :
      (n : ℕ) (db : sled.Db)
      → get_block sled code n db
        ≡ read_as a_block code.deserialize_block (laws.content db (block_key n))
  unfolding get_block
  get_block-content n db = load-eq-read_as sled laws _ _ _ db

  get_root-content :
      (n : ℕ) (db : sled.Db)
      → get_state_root sled code n db
        ≡ read_as a_state_root code.deserialize_root (laws.content db (state_root_key n))
  unfolding get_state_root
  get_root-content n db = load-eq-read_as sled laws _ _ _ db

  get_block-with_block :
      (b : Block) (n : ℕ) (db : sled.Db)
      → b.header.number < u64_mod
      → n < u64_mod
      → get_block sled code n (with_block b db)
        ≡ (if b.header.number == n then ok (some b) else get_block sled code n db)
  get_block-with_block b n db hb hn = ground (
    arith,
    get_block-content n (with_block b db),
    get_block-content n db,
    content-saved sled laws (block_key b.header.number) (codes.block_bytes b) db (block_key n),
    block_key-test b.header.number n hb hn,
    codes.deserialize_block-bytes b,
  )

  get_root-with_root :
      (m : ℕ) (r : StateRoot) (n : ℕ) (db : sled.Db)
      → m < u64_mod
      → n < u64_mod
      → get_state_root sled code n (with_root m r db)
        ≡ (if m == n then ok (some r) else get_state_root sled code n db)
  get_root-with_root m r n db hm hn = ground (
    arith,
    get_root-content n (with_root m r db),
    get_root-content n db,
    content-saved sled laws (state_root_key m) (codes.root_bytes r) db (state_root_key n),
    root_key-test m n hm hn,
    codes.deserialize_root-bytes r,
  )

  get_root-with_block :
      (b : Block) (n : ℕ) (db : sled.Db)
      → get_state_root sled code n (with_block b db) ≡ get_state_root sled code n db
  get_root-with_block b n db = ground (
    arith,
    get_root-content n (with_block b db),
    get_root-content n db,
    content-saved sled laws (block_key b.header.number) (codes.block_bytes b) db (state_root_key n),
    bytes_beq_ne _ _ (keys_apart b.header.number n),
  )

  get_block-with_root :
      (m : ℕ) (r : StateRoot) (n : ℕ) (db : sled.Db)
      → get_block sled code n (with_root m r db) ≡ get_block sled code n db
  get_block-with_root m r n db = ground (
    arith,
    get_block-content n (with_root m r db),
    get_block-content n db,
    content-saved sled laws (state_root_key m) (codes.root_bytes r) db (block_key n),
    bytes_beq_ne _ _ (λ e. keys_apart n m (sym e)),
  )

  -- The pairs that `save_transaction_receipts` writes.
  abbrev encodes : List TransactionReceipt → Dict Bytes Bytes → Dict Bytes Bytes
  encodes [] pairs = pairs
  encodes (r ∷ rs) pairs = encodes rs (insert r.transaction_hash (codes.receipt_bytes r) pairs)

  encode_receipts-ok :
      {E : Type 0} (rs : List TransactionReceipt) (pairs : Dict Bytes Bytes)
      → encode_receipts sled code {E = E} rs pairs ≡ ok (encodes rs pairs)
  unfolding encode_receipts
  encode_receipts-ok [] pairs = refl
  encode_receipts-ok (r ∷ rs) pairs =
      rw (codes.serialize_receipt-ok r)
        (encode_receipts-ok rs (insert r.transaction_hash (codes.receipt_bytes r) pairs))

  encodes-apart :
      (k : Bytes) (rs : List TransactionReceipt) (pairs : Dict Bytes Bytes)
      → length k ≢ 32
      → All HasHash rs
      → All (λ p. p.0 ≢ k) pairs
      → All (λ p. p.0 ≢ k) (encodes rs pairs)
  encodes-apart k [] pairs len h apart = apart
  encodes-apart k (r ∷ rs) pairs len h apart =
      encodes-apart k rs (insert r.transaction_hash (codes.receipt_bytes r) pairs) len h.1 (
        insert-apart k r.transaction_hash (codes.receipt_bytes r) pairs
          (λ e. len (ap (λ (x : Bytes). length x) (sym e) ∙ h.0)) apart)

  abbrev with_receipts : List TransactionReceipt → sled.Db → sled.Db
  with_receipts rs db = laws.committed (encodes rs []) db

  save_receipts-with_receipts :
      (rs : List TransactionReceipt) (db : sled.Db)
      → save_transaction_receipts sled code rs db ≡ (ok tt, with_receipts rs db)
  unfolding save_transaction_receipts
  save_receipts-with_receipts rs db =
      ground
        (arith, encode_receipts-ok {E = StorageError} rs [], laws.transaction-ok (encodes rs []) db)

  content-with_receipts :
      (k : Bytes) (rs : List TransactionReceipt) (db : sled.Db)
      → length k ≢ 32
      → All HasHash rs
      → laws.content (with_receipts rs db) k ≡ laws.content db k
  content-with_receipts k rs db len h =
      laws.content-committed (encodes rs []) db k
      ∙ last_of-apart k (encodes rs []) (laws.content db k) (encodes-apart k rs [] len h tt)

  get_block-with_receipts :
      (rs : List TransactionReceipt) (n : ℕ) (db : sled.Db)
      → All HasHash rs
      → get_block sled code n (with_receipts rs db) ≡ get_block sled code n db
  get_block-with_receipts rs n db h = ground (
    arith,
    get_block-content n (with_receipts rs db),
    get_block-content n db,
    content-with_receipts (block_key n) rs db (length-block_key n) h,
  )

  get_root-with_receipts :
      (rs : List TransactionReceipt) (n : ℕ) (db : sled.Db)
      → All HasHash rs
      → get_state_root sled code n (with_receipts rs db) ≡ get_state_root sled code n db
  get_root-with_receipts rs n db h = ground (
    arith,
    get_root-content n (with_receipts rs db),
    get_root-content n db,
    content-with_receipts (state_root_key n) rs db (length-state_root_key n) h,
  )

  -- Over a database and encodings that work, `SledStorage` meets the contract `IsStorage`: the
  -- saves of blocks, state roots and receipts go through; a block and a state root are read back,
  -- at numbers in the range of `u64`; and no save disturbs the blocks and roots under other
  -- numbers or of the other kind, that of receipts whose hashes have 32 bytes none at all.
  pub sled_storage-IsStorage : IsStorage (sled_storage sled code)
  unfolding sled_storage
  sled_storage-IsStorage = record {
    saved_block = with_block;
    save_block-ok = save_block-with_block;
    get_block-saved_block = get_block-with_block;
    get_state_root-saved_block = get_root-with_block;
    saved_root = with_root;
    save_state_root-ok = save_root-with_root;
    get_state_root-saved_root = get_root-with_root;
    get_block-saved_root = get_block-with_root;
    saved_receipts = with_receipts;
    save_receipts-ok = save_receipts-with_receipts;
    get_block-saved_receipts = get_block-with_receipts;
    get_state_root-saved_receipts = get_root-with_receipts;
  }
