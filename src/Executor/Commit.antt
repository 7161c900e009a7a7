-- ===== src/Executor/Commit.antt =====
-- `persist_block` of executor/executor.rs over a storage that meets its contract.
use gravity_kvstore.Prelude.{
  ℕ, ◌<◌, ◌≡◌, refl, ◌∙◌, Bytes, nat_eq, some, List, [], ◌∷◌, ok, All, u64_mod, arith, ◌==◌,
  if◌then◌else◌,
}
use gravity_kvstore.Dict
use gravity_kvstore.Types.{TransactionWithAccount}
use gravity_kvstore.Types.Deps.{Deps}
use gravity_kvstore.Types.Convert.{account, sequence_number}
use gravity_kvstore.Storage.{Storage, StorageError, IsStorage, HasHash}
use gravity_kvstore.Mempool.{Pool, remove_txn}
use gravity_kvstore.Executor.Block.{PendingBlock}
use gravity_kvstore.Executor.Tasks.{CommitTask, remove_txns, persist_pending, persist_block}

module _ (d : Deps) where
  -- The address of a transaction converts.
  abbrev pub HasAccount : TransactionWithAccount → Type 0
  HasAccount t = (sender : Bytes) × (account d {E = StorageError} t ≡ ok sender)

  -- The pool without the transactions of a block.
  abbrev pub without : (txs : List TransactionWithAccount) → All HasAccount txs → Pool → Pool
  without [] h pool = pool
  without (t ∷ txs) h pool = without txs h.1 (remove_txn h.0.0 (sequence_number t) pool)

  remove_txns-ok :
      (txs : List TransactionWithAccount) (h : All HasAccount txs) (pool : Pool)
      → remove_txns d txs pool ≡ (ok tt, without txs h pool)
  unfolding remove_txns
  remove_txns-ok [] h pool = refl
  remove_txns-ok (t ∷ txs) h pool =
      rw h.0.1 (remove_txns-ok txs h.1 (remove_txn h.0.0 (sequence_number t) pool))

module _ (d : Deps) {S : Type 0} (storage : Storage S) (laws : IsStorage storage) where
  -- The store after a block's three saves.
  abbrev pub stored : PendingBlock → S → S
  stored e store =
      laws.saved_root e.block.header.number e.root
        (laws.saved_receipts e.receipts (laws.saved_block e.block store))

  pub get_block-stored :
      (e : PendingBlock) (m : ℕ) (store : S)
      → e.block.header.number < u64_mod
      → m < u64_mod
      → All HasHash e.receipts
      → storage.get_block m (stored e store)
        ≡ (if e.block.header.number == m then ok (some e.block) else storage.get_block m store)
  get_block-stored e m store hn hm hashes =
      let s₁ = laws.saved_block e.block store in
      laws.get_block-saved_root e.block.header.number e.root m (laws.saved_receipts e.receipts s₁)
      ∙ laws.get_block-saved_receipts e.receipts m s₁ hashes
      ∙ laws.get_block-saved_block e.block m store hn hm

  pub get_state_root-stored :
      (e : PendingBlock) (m : ℕ) (store : S)
      → e.block.header.number < u64_mod
      → m < u64_mod
      → All HasHash e.receipts
      → storage.get_state_root m (stored e store)
        ≡ (if e.block.header.number == m then ok (some e.root) else storage.get_state_root m store)
  get_state_root-stored e m store hn hm hashes =
      let s₁ = laws.saved_block e.block store in
      let s₂ = laws.saved_receipts e.receipts s₁ in
      laws.get_state_root-saved_root e.block.header.number e.root m s₂ hn hm
      ∙ ground (
        arith,
        laws.get_state_root-saved_receipts e.receipts m s₁ hashes,
        laws.get_state_root-saved_block e.block m store,
      )

  pub persist_pending-ok :
      (e : PendingBlock) (task : CommitTask S) (h : All (HasAccount d) e.block.transactions)
      → persist_pending d storage e task ≡ (
        ok tt,
        record task {
          store = stored e task.store;
          pool = without d e.block.transactions h task.pool;
        },
      )
  unfolding persist_pending
  persist_pending-ok e task h = ground (
    arith,
    remove_txns-ok d e.block.transactions h task.pool,
    laws.save_block-ok e.block task.store,
    laws.save_receipts-ok e.receipts (laws.saved_block e.block task.store),
    laws.save_state_root-ok e.block.header.number e.root
        (laws.saved_receipts e.receipts (laws.saved_block e.block task.store)),
  )

  -- Over a storage that meets its contract, where a block waits under its own number, in the range
  -- of `u64`, with receipts whose hashes have 32 bytes and addresses that convert, the commit goes
  -- through: the block and its state root are read under its number, as they waited; other numbers
  -- are read as before; the block no longer waits; and its transactions have been removed from the
  -- pool.
  pub persist_block-stores :
      (n m : ℕ) (task : CommitTask S) (e : PendingBlock)
      → Dict.lookup n task.pending ≡ some e
      → e.block.header.number ≡ n
      → n < u64_mod
      → m < u64_mod
      → All HasHash e.receipts
      → (h : All (HasAccount d) e.block.transactions)
      → (task' : CommitTask S) × (persist_block d storage n task ≡ (ok tt, task'))
        × (storage.get_block m task'.store
            ≡ (if n == m then ok (some e.block) else storage.get_block m task.store))
        × (storage.get_state_root m task'.store
            ≡ (if n == m then ok (some e.root) else storage.get_state_root m task.store))
        × (task'.pending ≡ Dict.remove n task.pending)
        × (task'.pool ≡ without d e.block.transactions h task.pool)
  unfolding persist_block
  persist_block-stores n m task e waits number hn hm hashes h =
      let hb : e.block.header.number < u64_mod = rw number hn in
      (
        record task {
          pending = Dict.remove n task.pending;
          store = stored e task.store;
          pool = without d e.block.transactions h task.pool;
        },
        rw (waits, persist_block)
            (persist_pending-ok e (record task { pending = Dict.remove n task.pending }) h),
        get_block-stored e m task.store hb hm hashes ∙ rw number,
        get_state_root-stored e m task.store hb hm hashes ∙ rw number,
        refl,
        refl,
      )
