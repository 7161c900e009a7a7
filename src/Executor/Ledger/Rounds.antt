-- ===== src/Executor/Ledger/Rounds.antt =====
-- The rounds of the execute task of executor/executor.rs against the ledger.
use gravity_kvstore.Prelude.{
  ◌+◌, ◌*◌, ◌<◌, ◌≡◌, refl, sym, subst, ◌∙◌, ap, Text, List, [], ◌∷◌, Outcome, ok, err, panic,
  arith, u64_mod, length, length-append, All, All-split,
}
use gravity_kvstore.Types.{TransactionWithAccount}
use gravity_kvstore.Types.Deps.{Deps, BincodeLaws}
use gravity_kvstore.Executor.Block.{ExternalBlock}
use gravity_kvstore.Executor.Tasks.{ExecuteTask, execute_all, execute_round, execute_task}
use gravity_kvstore.Executor.Conserve.{total}
use gravity_kvstore.Executor.Replay.{HasNext}
use gravity_kvstore.Executor.Chain.{blocks_of, execute_round-runs}
use gravity_kvstore.Executor.Ledger.{all, view}
use gravity_kvstore.Executor.Ledger.Append.{all-append}
use gravity_kvstore.Executor.Ledger.Refines.{sent}
use gravity_kvstore.Executor.Ledger.Blocks.{
  Achieves, Reads, Reads-split, sent-append, continue-Achieves, IsChain-total, execute_all-Achieves,
}

-- The block buffer manager has answered, with blocks or an error.
abbrev pub Answers : {X : Type 0} → Outcome Text X → Type 0
Answers (ok x) = Unit
Answers (err e) = Unit
Answers panic = ⊥

module _ (d : Deps) (bincode : BincodeLaws d) where
  execute_round-Achieves :
      (blocks : List (ExternalBlock d)) (txs : List TransactionWithAccount) (task : ExecuteTask)
      → task.start_num + length blocks < u64_mod
      → Reads d blocks txs
      → All HasNext txs
      → 2 * (total task.state + 5000000000 * length txs) < u64_mod
      → Achieves (execute_round d (ok blocks) task) (all (sent d txs) (view task.state))
  unfolding execute_round
  execute_round-Achieves blocks txs task next reads fits small =
      let at_next : ExecuteTask = record task { start_num = task.start_num + length blocks } in
      let same : execute_round d (ok blocks) task ≡ execute_all d blocks at_next = ground arith in
      subst (λ q. Achieves q (all (sent d txs) (view task.state))) (sym same)
        (execute_all-Achieves d bincode blocks txs at_next reads fits small)

  -- Under the laws of bincode: rounds of the execute task whose answers are blocks and errors, where
  -- the next number asked for stays in the range of `u64`, the transactions of every block can be
  -- read and do not have the last `u64` as their nonce, and the sum of the balances and the grants
  -- of 5000000000 for each of these transactions are together below half of the range of `u64`, do
  -- what the ledger over numbers without bound does. However the transactions are cut into blocks
  -- and the blocks into answers, the rounds end in a state whose ledger is that of the transactions,
  -- applied one after the other to the ledger of the first state, and the task panics where one of
  -- them has no signer, is ahead of its sender or cannot be paid.
  pub execute_task-Achieves :
      (answers : List (Outcome Text (List (ExternalBlock d)))) (txs : List TransactionWithAccount)
      (task : ExecuteTask)
      → All Answers answers
      → task.start_num + length (blocks_of d answers) < u64_mod
      → Reads d (blocks_of d answers) txs
      → All HasNext txs
      → 2 * (total task.state + 5000000000 * length txs) < u64_mod
      → Achieves (execute_task d answers task) (all (sent d txs) (view task.state))
  unfolding execute_task execute_round
  execute_task-Achieves [] txs task given next none_left fits small = rw none_left refl
  execute_task-Achieves (ok blocks ∷ answers) txs task given next reads fits small =
      let (now, later, first, rest, joined) =
        Reads-split d blocks (blocks_of d answers) txs reads in
      let (fit, fit') = All-split HasNext now later (rw joined at fits) in
      let sum : length txs ≡ length now + length later =
        ap length joined ∙ length-append now later in
      let count = length-append blocks (blocks_of d answers) in
      rw (joined, sent-append d now later, all-append (sent d now) (sent d later) (view task.state))
        (continue-Achieves (execute_round d (ok blocks) task) _ (all (sent d now) (view task.state))
          (all (sent d later))
          (execute_round-Achieves blocks now task (omega arith) first fit (omega arith))
          λ _ t ran.
            let ((es, chain, _, _), moved) = execute_round-runs d blocks task t (omega arith) ran in
            let grown =
              IsChain-total d blocks es now task.state t.state chain first fit (omega arith) in
            execute_task-Achieves answers later t given.1 (omega arith) rest fit' (omega arith))
  execute_task-Achieves (err e ∷ answers) txs task given next reads fits small =
      execute_task-Achieves answers txs task given.1 next reads fits small
  execute_task-Achieves (panic ∷ answers) txs task given next reads fits small = absurd given.0
