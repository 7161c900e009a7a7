-- ===== src/Executor/Committed.antt =====
-- A round of `commit_task` of executor/executor.rs over a storage that meets its contract.
use gravity_kvstore.Prelude.{
  ℕ, ◌+◌, ◌<◌, ◌≡◌, refl, nat_eq, some, List, [], ◌∷◌, ok, add_wrap, length, All, u64_mod, arith,
  ◌==◌, false,
}
use gravity_kvstore.Dict
use gravity_kvstore.Dict.Laws.{lookup-remove}
use gravity_kvstore.Types.Deps.{Deps}
use gravity_kvstore.Storage.{Storage, StorageError, IsStorage, HasHash}
use gravity_kvstore.Executor.Block.{Pending, PendingBlock}
use gravity_kvstore.Executor.Tasks.{CommitTask, persist_block, persist_all, commit_round}
use gravity_kvstore.Executor.Commit.{
  HasAccount, without, stored, persist_pending-ok, get_block-stored, get_state_root-stored,
}

abbrev pub numbers : List PendingBlock → List ℕ
numbers [] = []
numbers (e ∷ es) = e.block.header.number ∷ numbers es

-- The block has another number.
abbrev pub IsApart : ℕ → PendingBlock → Type 0
IsApart n e = (e.block.header.number == n) ≡ false

-- No two of the blocks have the same number.
abbrev pub AreApart : List PendingBlock → Type 0
AreApart [] = Unit
AreApart (e ∷ es) = All (IsApart e.block.header.number) es × AreApart es

abbrev pub remove_all : List PendingBlock → Pending → Pending
remove_all [] pending = pending
remove_all (e ∷ es) pending = remove_all es (Dict.remove e.block.header.number pending)

module _ (d : Deps) where
  -- The block waits under its number, and can be written.
  abbrev pub CanCommit : Pending → PendingBlock → Type 0
  CanCommit pending e =
      (Dict.lookup e.block.header.number pending ≡ some e)
      × (e.block.header.number < u64_mod)
      × All HasHash e.receipts
      × All (HasAccount d) e.block.transactions

  CanCommit-remove :
      (n : ℕ) (pending : Pending) (es : List PendingBlock)
      → All (IsApart n) es
      → All (CanCommit pending) es
      → All (CanCommit (Dict.remove n pending)) es
  CanCommit-remove n pending [] apart h = tt
  CanCommit-remove n pending (e ∷ es) apart ((waits, bound, hashes, accounts), hs) = (
    (ground (arith, lookup-remove n e.block.header.number pending), bound, hashes, accounts),
    CanCommit-remove n pending es apart.1 hs,
  )

module _ (d : Deps) {S : Type 0} (storage : Storage S) (laws : IsStorage storage) where
  abbrev stored_all : List PendingBlock → S → S
  stored_all [] store = store
  stored_all (e ∷ es) store = stored_all es (stored d storage laws e store)

  -- The block and its root are read under its number.
  abbrev pub IsStored : S → PendingBlock → Type 0
  IsStored store e =
      (storage.get_block e.block.header.number store ≡ ok (some e.block))
      × (storage.get_state_root e.block.header.number store ≡ ok (some e.root))

  IsStored-stored_all :
      (e : PendingBlock) (es : List PendingBlock) (store : S)
      → e.block.header.number < u64_mod
      → All (λ f. (f.block.header.number < u64_mod) × All HasHash f.receipts) es
      → All (IsApart e.block.header.number) es
      → IsStored store e
      → IsStored (stored_all es store) e
  IsStored-stored_all e [] store bound h apart now = now
  IsStored-stored_all e (f ∷ fs) store bound h apart now =
      let (hf, hashes) = h.0 in
      IsStored-stored_all e fs (stored d storage laws f store) bound h.1 apart.1 (
        ground
            (arith, get_block-stored d storage laws f e.block.header.number store hf bound hashes),
        ground (
          arith,
          get_state_root-stored d storage laws f e.block.header.number store hf bound hashes,
        ),
      )

  persist_block-ok :
      (e : PendingBlock) (task : CommitTask S)
      → (h : CanCommit d task.pending e)
      → persist_block d storage e.block.header.number task ≡ (
        ok tt,
        record task {
          pending = Dict.remove e.block.header.number task.pending;
          store = stored d storage laws e task.store;
          pool = without d e.block.transactions h.3 task.pool;
        },
      )
  unfolding persist_block
  persist_block-ok e task (waits, _, _, h) =
      rw (waits, persist_block)
        (persist_pending-ok d storage laws e
          (record task { pending = Dict.remove e.block.header.number task.pending }) h)

  Can-write :
      (pending : Pending) (es : List PendingBlock)
      → All (CanCommit d pending) es
      → All (λ f. (f.block.header.number < u64_mod) × All HasHash f.receipts) es
  Can-write pending [] h = tt
  Can-write pending (e ∷ es) h = ((h.0.1, h.0.2), Can-write pending es h.1)

  persist_all-stores :
      (es : List PendingBlock) (task : CommitTask S)
      → All (CanCommit d task.pending) es
      → AreApart es
      → (task' : CommitTask S) × (persist_all d storage (numbers es) task ≡ (ok tt, task'))
        × (task'.start_num ≡ task.start_num)
        × (task'.pending ≡ remove_all es task.pending)
        × (task'.store ≡ stored_all es task.store)
        × All (IsStored task'.store) es
  unfolding persist_all
  persist_all-stores [] task h apart = (task, refl, refl, refl, refl, tt)
  persist_all-stores (e ∷ es) task h apart =
      let n = e.block.header.number in
      let next : CommitTask S = record task {
        pending = Dict.remove n task.pending;
        store = stored d storage laws e task.store;
        pool = without d e.block.transactions h.0.3 task.pool;
      } in
      let one = persist_block-ok e task h.0 in
      let (task', run, start, left, store, all) =
        persist_all-stores es next (CanCommit-remove d n task.pending es apart.0 h.1) apart.1 in
      let now : IsStored next.store e = (
        ground (arith, get_block-stored d storage laws e n task.store h.0.1 h.0.1 h.0.2),
        ground (arith, get_state_root-stored d storage laws e n task.store h.0.1 h.0.1 h.0.2),
      ) in
      (
        task',
        ground (arith, one, run),
        start,
        left,
        store,
        (
          rw store (
              IsStored-stored_all e es next.store h.0.1 (Can-write task.pending es h.1) apart.0
                now),
          all,
        ),
      )

  -- Over a storage that meets its contract, a round that brings the numbers of blocks that wait
  -- under their numbers, each number once and in the range of `u64`, with receipts whose hashes
  -- have 32 bytes and addresses that convert, goes through, if the next number asked for stays in
  -- that range: every block and its state root are then read under its number; they no longer
  -- wait; and the next number asked for has gone up by as many.
  pub commit_round-stores :
      (es : List PendingBlock) (task : CommitTask S)
      → All (CanCommit d task.pending) es
      → AreApart es
      → task.start_num + length (numbers es) < u64_mod
      → (task' : CommitTask S) × (commit_round d storage (ok (numbers es)) task ≡ (ok tt, task'))
        × All (IsStored task'.store) es
        × (task'.pending ≡ remove_all es task.pending)
        × (task'.start_num ≡ task.start_num + length (numbers es))
  unfolding commit_round
  commit_round-stores es task h apart fits =
      let next = task.start_num + length (numbers es) in
      let (task', run, start, left, store, all) =
        persist_all-stores es (record task { start_num = next }) h apart in
      let counted : add_wrap {E = StorageError} d.overflow_checks u64_mod task.start_num
            (length (numbers es))
          ≡ ok next =
        ground arith in
      (task', rw (counted, commit_round) run, all, left, start)
