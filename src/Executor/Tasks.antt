-- ===== src/Executor/Tasks.antt =====
-- The two tasks of executor/executor.rs and `persist_block`. What `get_ordered_blocks` and
-- `get_committed_blocks` of gravity_sdk answer, round by round, is the argument of a task.
use gravity_kvstore.Prelude.{
  ℕ, Text, Bytes, nat_eq, none, some, List, [], ◌∷◌, ◌++◌, Outcome, ok, err, panic, unwrap,
  continue, length, add_wrap, u64_mod,
}
use gravity_kvstore.Dict
use gravity_kvstore.Types.{TransactionWithAccount}
use gravity_kvstore.Types.Deps.{Deps}
use gravity_kvstore.Types.Convert.{account, sequence_number}
use gravity_kvstore.State.{State}
use gravity_kvstore.Storage.{Storage, StorageError}
use gravity_kvstore.Mempool.{Pool, remove_txn}
use gravity_kvstore.Executor.{ExecuteError}
use gravity_kvstore.Executor.Block.{ExternalBlock, Pending, PendingBlock, execute_block}

-- A call of `set_compute_res`: block id, hash, number. Its answer is only logged.
pub record ComputeRes : Type 0 where
  pub block_id : Bytes
  pub hash : Bytes
  pub block_number : ℕ

-- What `execute_task` works on.
pub record ExecuteTask : Type 0 where
  pub start_num : ℕ
  pub state : State
  pub pending : Pending
  pub computed : List ComputeRes

-- What `commit_task` works on, over a store `S`.
pub record CommitTask (S : Type 0) : Type 0 where
  pub start_num : ℕ
  pub pending : Pending
  pub store : S
  pub pool : Pool

module _ (d : Deps) where
  -- The body of the loop over the ordered blocks.
  unfoldable pub execute_ordered :
      ExternalBlock d → ExecuteTask → Outcome ExecuteError (Unit {0}) × ExecuteTask
  execute_ordered block task =
      let (exec_res, state, pending) = execute_block d block task.state task.pending in
      let task' = record task { state = state; pending = pending } in
      continue (exec_res, task')
        λ hash t. (
          ok tt,
          record t {
            computed =
                t.computed
                ++ record {
                  block_id = block.block_id;
                  hash = hash;
                  block_number = block.block_number;
                }
                  ∷ [];
          },
        )

  unfoldable pub execute_all :
      List (ExternalBlock d) → ExecuteTask → Outcome ExecuteError (Unit {0}) × ExecuteTask
  execute_all [] task = (ok tt, task)
  execute_all (block ∷ blocks) task =
      continue (execute_ordered block task) λ _ t. execute_all blocks t

  -- One round of `execute_task`.
  unfoldable pub execute_round :
      Outcome Text (List (ExternalBlock d))
      → ExecuteTask
      → Outcome ExecuteError (Unit {0}) × ExecuteTask
  execute_round (ok blocks) task =
      continue (add_wrap d.overflow_checks u64_mod task.start_num (length blocks), task)
        λ next t. execute_all blocks (record t { start_num = next })
  execute_round (err e) task = (ok tt, task)
  execute_round panic task = (panic, task)

  -- The loop never ends by itself: this is what it has done after the given answers.
  unfoldable pub execute_task :
      List (Outcome Text (List (ExternalBlock d)))
      → ExecuteTask
      → Outcome ExecuteError (Unit {0}) × ExecuteTask
  execute_task [] task = (ok tt, task)
  execute_task (answer ∷ answers) task =
      continue (execute_round answer task) λ _ t. execute_task answers t

  -- `for txn in &final_block.transactions { pool.remove_txn(…) }`
  unfoldable pub remove_txns :
      List TransactionWithAccount → Pool → Outcome StorageError (Unit {0}) × Pool
  remove_txns [] pool = (ok tt, pool)
  remove_txns (txn ∷ txns) pool =
      continue (account d txn, pool)
        λ sender p. remove_txns txns (remove_txn sender (sequence_number txn) p)

module _ (d : Deps) {S : Type 0} (storage : Storage S) where
  open storage use {save_block, save_transaction_receipts, save_state_root}

  -- A call on the store, with `unwrap`.
  abbrev pub on_store :
      (S → Outcome StorageError (Unit {0}) × S)
      → CommitTask S
      → Outcome StorageError (Unit {0}) × CommitTask S
  on_store call task =
      let (result, store) = call task.store in (unwrap result, record task { store = store })

  -- `persist_block` once the block is taken out of those that wait.
  unfoldable pub persist_pending :
      PendingBlock → CommitTask S → Outcome StorageError (Unit {0}) × CommitTask S
  persist_pending entry task =
      let (removed, pool) = remove_txns d entry.block.transactions task.pool in
      continue (removed, record task { pool = pool })
        λ _ t. continue (on_store (save_block entry.block) t) λ _ t.
          continue (on_store (save_transaction_receipts entry.receipts) t)
            λ _ t. on_store (save_state_root entry.block.header.number entry.root) t

  unfoldable pub persist_block : ℕ → CommitTask S → Outcome StorageError (Unit {0}) × CommitTask S
  persist_block block_number task = elim (Dict.lookup block_number task.pending) [
    | none ↦ (panic, task)
    | some entry ↦
        persist_pending entry (record task { pending = Dict.remove block_number task.pending })
  ]

  -- The loop over the committed blocks: an error is logged, and the loop goes on.
  unfoldable pub persist_all :
      List ℕ → CommitTask S → Outcome StorageError (Unit {0}) × CommitTask S
  persist_all [] task = (ok tt, task)
  persist_all (number ∷ numbers) task =
      let (result, task') = persist_block number task in
      let rest = persist_all numbers task' in
      elim result [ ok _ ↦ rest | err _ ↦ rest | panic ↦ (panic, task') ]

  -- One round of `commit_task`.
  unfoldable pub commit_round :
      Outcome Text (List ℕ) → CommitTask S → Outcome StorageError (Unit {0}) × CommitTask S
  commit_round (ok numbers) task =
      continue (add_wrap d.overflow_checks u64_mod task.start_num (length numbers), task)
        λ next t. persist_all numbers (record t { start_num = next })
  commit_round (err e) task = (ok tt, task)
  commit_round panic task = (panic, task)

  unfoldable pub commit_task :
      List (Outcome Text (List ℕ)) → CommitTask S → Outcome StorageError (Unit {0}) × CommitTask S
  commit_task [] task = (ok tt, task)
  commit_task (answer ∷ answers) task =
      continue (commit_round answer task) λ _ t. commit_task answers t
