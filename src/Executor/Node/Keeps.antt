-- ===== src/Executor/Node/Keeps.antt =====
-- What executions and removals keep of the node of executor/executor.rs.
use gravity_kvstore.Prelude.{
  ◌<◌, ◌≡◌, refl, sym, subst, inl, inr, Bytes, bytes_eq, nat_eq, List, [], ◌∷◌, Outcome, ok, err,
  panic, continue-keeps, All, u64_mod, Outcome-cases,
}
use gravity_kvstore.Dict.Entries.{All-insert}
use gravity_kvstore.Types.{TransactionReceipt, TransactionWithAccount}
use gravity_kvstore.Types.Deps.{Deps, KeccakLaws, BincodeLaws}
use gravity_kvstore.Types.Convert.{account, sequence_number}
use gravity_kvstore.State.{State, get_state_root}
use gravity_kvstore.Mempool.{Pool, remove_txn}
use gravity_kvstore.Mempool.WellFormed.{IsWellFormed, remove_txn-IsWellFormed}
use gravity_kvstore.Executor.{ExecuteError}
use gravity_kvstore.Executor.Block.{
  ExternalBlock, Pending, execute_block, seal_block, execute_txns, block_txns,
}
use gravity_kvstore.Executor.Tasks.{remove_txns}
use gravity_kvstore.Executor.Receipts.{execute_txns-HasHash}
use gravity_kvstore.Executor.Node.{IsKept}

module _ (d : Deps) where
  pub remove_txns-IsWellFormed :
      (txs : List TransactionWithAccount) (pool : Pool)
      → IsWellFormed pool
      → IsWellFormed (remove_txns d txs pool).1
  unfolding remove_txns
  remove_txns-IsWellFormed [] pool h = h
  remove_txns-IsWellFormed (t ∷ txs) pool h =
      continue-keeps IsWellFormed (account d t, pool) _ h
        λ sender p w.
          remove_txns-IsWellFormed txs (remove_txn sender (sequence_number t) p)
            (remove_txn-IsWellFormed sender (sequence_number t) p w)

module _ (d : Deps) (sha : KeccakLaws d) (bincode : BincodeLaws d) where
  seal_block-keeps :
      (b : ExternalBlock d) (txs : List TransactionWithAccount) (parent : Bytes) (s : State)
      (run : Outcome ExecuteError (List TransactionReceipt) × State) (p : Pending)
      → b.block_number < u64_mod
      → execute_txns d txs s ≡ run
      → All IsKept p
      → All IsKept (seal_block d b txs parent run p).2
  unfolding seal_block
  seal_block-keeps b txs parent s (ok receipts, s') p fits e h =
      All-insert IsKept b.block_number _ p h
        (refl, fits, refl, execute_txns-HasHash d sha bincode txs s s' e)
  seal_block-keeps b txs parent s (err e', s') p fits e h = h
  seal_block-keeps b txs parent s (panic, s') p fits e h = h

  pub execute_block-keeps :
      (b : ExternalBlock d) (s : State) (p : Pending)
      → b.block_number < u64_mod
      → All IsKept p
      → All IsKept (execute_block d b s p).2
  unfolding execute_block
  execute_block-keeps b s p fits h = elim (Outcome-cases (block_txns d {E = ExecuteError} b.txns)) [
    | inl (txs, e) ↦
        let run = execute_txns d txs s in
        let root = (get_state_root s).bytes in
        let same : execute_block d b s p ≡ seal_block d b txs root run p =
          rw (e, execute_block) refl in
        subst (λ q. All IsKept q.2) (sym same) (seal_block-keeps b txs root s run p fits refl h)
    | inr (inl (e', e)) ↦
        let same : execute_block d b s p ≡ (err e', s, p) = rw (e, execute_block) refl in
        subst (λ q. All IsKept q.2) (sym same) h
    | inr (inr e) ↦
        let same : execute_block d b s p ≡ (panic, s, p) = rw (e, execute_block) refl in
        subst (λ q. All IsKept q.2) (sym same) h
  ]
