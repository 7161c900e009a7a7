-- ===== src/Executor/Node/Sound.antt =====
-- The node of executor/executor.rs and app/server.rs stays sound, whatever comes in.
use gravity_kvstore.Prelude.{
  ℕ, ◌<◌, ◌≡◌, refl, sym, subst, ◌⊎◌, inl, inr, bytes_eq, nat_eq, Option, some, Outcome, ok, panic,
  All, u64_mod, arith, Option-cases, Outcome-cases, eq_or_ne,
}
use gravity_kvstore.Dict
use gravity_kvstore.Dict.Entries.{All-lookup, All-remove}
use gravity_kvstore.Types.{Block, StateRoot}
use gravity_kvstore.Types.Deps.{Deps, KeccakLaws, BincodeLaws}
use gravity_kvstore.Storage.{Storage, StorageError, IsStorage}
use gravity_kvstore.Server.{Context, add_txn}
use gravity_kvstore.Server.Keeps
use gravity_kvstore.Server.Keeps.{add_txn-IsKept}
use gravity_kvstore.Shell.{Shell, handle_command}
use gravity_kvstore.Shell.Keeps.{handle_command-IsReady}
use gravity_kvstore.Mempool.WellFormed.{IsWellFormed}
use gravity_kvstore.Executor.Block.{PendingBlock}
use gravity_kvstore.Executor.Tasks.{CommitTask, remove_txns, persist_pending, persist_block}
use gravity_kvstore.Executor.Commit.{stored, get_block-stored, get_state_root-stored}
use gravity_kvstore.Executor.Node.{
  Node, IsKept, Agrees, context_of, put_back, Step, request, command, execute, commit, Run, begin,
  after, IsSound,
}
use gravity_kvstore.Executor.Node.Keeps.{execute_block-keeps, remove_txns-IsWellFormed}

Agrees-subst :
    (m : ℕ) {o o' : Outcome StorageError (Option Block)}
    {r r' : Outcome StorageError (Option StateRoot)}
    → o' ≡ o
    → r' ≡ r
    → Agrees m o r
    → Agrees m o' r'
Agrees-subst m {o = o} {r' = r'} e e' h =
    subst (λ q. Agrees m q r') (sym e) (subst (λ q. Agrees m o q) (sym e') h)

module _ (d : Deps) (sha : KeccakLaws d) (bincode : BincodeLaws d) where
  module _ {S : Type 0} (storage : Storage S) (laws : IsStorage storage) where
    -- The store after `persist_pending`: as before, where an address does not convert, or with the
    -- block.
    persist_pending-effect :
        (e : PendingBlock) (task : CommitTask S)
        → let removed = remove_txns d e.block.transactions task.pool in
          let result = persist_pending d storage e task in
          (result.1 ≡ record task { pool = removed.1 })
          ⊎ (result.1
              ≡ record task { pool = removed.1; store = stored d storage laws e task.store })
    unfolding persist_pending
    persist_pending-effect e task =
        elim (Outcome-cases (remove_txns d e.block.transactions task.pool).0) [
          | inl (_, done) ↦ inr (
              ground (
                arith,
                laws.save_block-ok e.block task.store,
                laws.save_receipts-ok e.receipts (laws.saved_block e.block task.store),
                laws.save_state_root-ok e.block.header.number e.root
                    (laws.saved_receipts e.receipts (laws.saved_block e.block task.store)),
              ))
          | inr (inl (e', failed)) ↦ inl (ground arith)
          | inr (inr failed) ↦ inl (ground arith)
        ]

    -- What is read under a number after a block's three saves.
    stored-Agrees :
        (m : ℕ) (e : PendingBlock) (store : S)
        → m < u64_mod
        → IsKept (e.block.header.number, e)
        → Agrees m (storage.get_block m store) (storage.get_state_root m store)
        → let store' = stored d storage laws e store in
          Agrees m (storage.get_block m store') (storage.get_state_root m store')
    stored-Agrees m e store hm (_, hn, root, hashes) h =
        let block = get_block-stored d storage laws e m store hn hm hashes in
        let state_root = get_state_root-stored d storage laws e m store hn hm hashes in
        elim (eq_or_ne e.block.header.number m) [
          | inl same ↦
              Agrees-subst m {o = ok (some e.block)} {r = ok (some e.root)} (ground arith)
                (ground arith) (same, root)
          | inr ne ↦
              Agrees-subst m {o = storage.get_block m store} {r = storage.get_state_root m store}
                (ground arith) (ground arith) h
        ]

    -- What the commit task has of the node.
    abbrev TaskIsSound : ℕ → CommitTask S → Type 0
    TaskIsSound m task =
        IsWellFormed task.pool
        × All IsKept task.pending
        × Agrees m (storage.get_block m task.store) (storage.get_state_root m task.store)

    persist_pending-TaskIsSound :
        (m : ℕ) (e : PendingBlock) (task : CommitTask S)
        → m < u64_mod
        → IsKept (e.block.header.number, e)
        → TaskIsSound m task
        → TaskIsSound m (persist_pending d storage e task).1
    persist_pending-TaskIsSound m e task hm keep (pool, kept, agrees) =
        let pool' = remove_txns-IsWellFormed d e.block.transactions task.pool pool in
        elim (persist_pending-effect e task) [
          | inl same ↦ subst (TaskIsSound m) (sym same) (pool', kept, agrees)
          | inr same ↦
              subst (TaskIsSound m) (sym same)
                (pool', kept, stored-Agrees m e task.store hm keep agrees)
        ]

    persist_block-TaskIsSound :
        (m k : ℕ) (task : CommitTask S)
        → m < u64_mod
        → TaskIsSound m task
        → TaskIsSound m (persist_block d storage k task).1
    unfolding persist_block
    persist_block-TaskIsSound m k task hm (pool, kept, agrees) =
        elim (Option-cases (Dict.lookup k task.pending)) [
          | inl nothing ↦
              let same : persist_block d storage k task ≡ (panic, task) =
                rw (nothing, persist_block) refl in
              subst (λ q. TaskIsSound m q.1) (sym same) (pool, kept, agrees)
          | inr (e, waits) ↦
              let rest = record task { pending = Dict.remove k task.pending } in
              let same : persist_block d storage k task ≡ persist_pending d storage e rest =
                rw (waits, persist_block) refl in
              let (number, bound, root, hashes) = All-lookup IsKept k e task.pending kept waits in
              subst (λ q. TaskIsSound m q.1) (sym same)
                (persist_pending-TaskIsSound m e rest hm (refl, omega arith, root, hashes)
                  (pool, All-remove IsKept k task.pending kept, agrees))
        ]

    -- What comes back from the server or the shell.
    put_back-IsSound :
        (m : ℕ) (n : Node S) (c : Context S)
        → All IsKept n.pending
        → Agrees m (storage.get_block m n.store) (storage.get_state_root m n.store)
        → Keeps.IsKept n.state n.store c
        → IsSound d storage m (put_back c n)
    put_back-IsSound m n c kept agrees (_, store, pool) = (
      pool,
      kept,
      subst (λ q. Agrees m (storage.get_block m q) (storage.get_state_root m q)) (sym store) agrees,
    )

    Step-IsSound :
        (m : ℕ) {n n' : Node S}
        → m < u64_mod
        → Step d storage n n'
        → IsSound d storage m n
        → IsSound d storage m n'
    Step-IsSound m hm (request n t fits) (pool, kept, agrees) =
        put_back-IsSound m n (add_txn d t (context_of n)).1 kept agrees
          (add_txn-IsKept d n.state n.store t (context_of n) fits (refl, refl, pool))
    Step-IsSound m hm (command n keypair args nonces) (pool, kept, agrees) =
        let shell : Shell d S = record { context = context_of n; keypair = keypair } in
        put_back-IsSound m n (handle_command d storage args shell).1.context kept agrees
          (handle_command-IsReady d n.state n.store nonces storage args shell (refl, refl, pool))
    Step-IsSound m hm (execute n b fits) (pool, kept, agrees) =
        (pool, execute_block-keeps d sha bincode b n.state n.pending fits kept, agrees)
    Step-IsSound m hm (commit n start k) h = persist_block-TaskIsSound m k _ hm h

    -- With digests of 32 bytes and the laws of bincode, over a storage that meets its contract:
    -- transactions sent to the server, with a nonce that is not the last `u64`, commands of the
    -- shell, over a state in which every next nonce fits in a `u64`, executions, of blocks with
    -- numbers in the range of `u64`, and commits have come in whatever order, and have gone through
    -- or panicked. From a sound node on, the pool stays well formed; a block that waits is under its
    -- own number, with receipts whose hashes have 32 bytes and with its header's root; and under
    -- every number of the store in the range of `u64` there is nothing, or the block of that number
    -- together with the root in its header.
    pub Run-IsSound :
        (m : ℕ) {n n' : Node S}
        → m < u64_mod
        → Run d storage n n'
        → IsSound d storage m n
        → IsSound d storage m n'
    Run-IsSound m hm begin h = h
    Run-IsSound m hm (after run step) h = Step-IsSound m hm step (Run-IsSound m hm run h)
