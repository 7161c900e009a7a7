-- ===== src/Executor/Seal.antt =====
-- The block that `execute_block` of executor/executor.rs leaves for the commit, and the chain of
-- the state roots.
use gravity_kvstore.Prelude.{◌≡◌, refl, Bytes, nat_eq, List, Outcome, ok, err, panic, arith}
use gravity_kvstore.Dict.{insert}
use gravity_kvstore.Types.{TransactionReceipt, TransactionWithAccount}
use gravity_kvstore.Types.Deps.{Deps}
use gravity_kvstore.State.{State, get_state_root}
use gravity_kvstore.Executor.{ExecuteError}
use gravity_kvstore.Executor.Block.{
  PendingBlock, Pending, ExternalBlock, block_txns, execute_txns, seal_block, execute_block,
}

module _ (d : Deps) where
  -- What `seal_block` makes of a run that did not panic.
  seal_block-eq-ok :
      (b : ExternalBlock d) (txs : List TransactionWithAccount) (parent : Bytes)
      (run : Outcome ExecuteError (List TransactionReceipt) × State) (p p' : Pending) {s' : State}
      {hash : Bytes}
      → seal_block d b txs parent run p ≡ (ok hash, s', p')
      → (e : PendingBlock) × (p' ≡ insert b.block_number e p)
        × (e.block.transactions ≡ txs)
        × (run ≡ (ok e.receipts, s'))
        × (e.block.header.number ≡ b.block_number)
        × (e.block.header.usecs ≡ b.usecs)
        × (e.block.header.parent_state_root ≡ parent)
        × (e.block.header.state_root ≡ (get_state_root s').bytes)
        × (e.root.bytes ≡ (get_state_root s').bytes)
        × (hash ≡ (get_state_root s').bytes)
  unfolding seal_block
  seal_block-eq-ok b txs parent (ok receipts, s₁) p p' h = (
    record {
      root = record { bytes = (get_state_root s₁).bytes };
      block = record {
        header = record {
          number = b.block_number;
          parent_state_root = parent;
          state_root = (get_state_root s₁).bytes;
          usecs = b.usecs;
        };
        transactions = txs;
      };
      receipts = receipts;
    },
    ground arith,
    refl,
    ground arith,
    refl,
    refl,
    refl,
    ground arith,
    ground arith,
    ground arith,
  )
  seal_block-eq-ok b txs parent (err e, s₁) p p' h = cc
  seal_block-eq-ok b txs parent (panic, s₁) p p' h = cc

  execute_block-eq-ok :
      (b : ExternalBlock d) (s s' : State) (p p' : Pending) {hash : Bytes}
      → execute_block d b s p ≡ (ok hash, s', p')
      → (txs : List TransactionWithAccount) × (block_txns d {E = ExecuteError} b.txns ≡ ok txs)
        × (seal_block d b txs (get_state_root s).bytes (execute_txns d txs s) p ≡ (ok hash, s', p'))
  unfolding execute_block
  execute_block-eq-ok b s s' p p' h = ground arith

  -- A block that is executed waits under its number, beside the others: with the number and time
  -- that were ordered, the transactions as they were read and the receipts of their run from the
  -- state before; its roots are those of the state before and after, and the root after is the
  -- answer and what is to be stored.
  pub execute_block-seals :
      (b : ExternalBlock d) (s s' : State) (p p' : Pending) {hash : Bytes}
      → execute_block d b s p ≡ (ok hash, s', p')
      → (e : PendingBlock) × (p' ≡ insert b.block_number e p)
        × (block_txns d {E = ExecuteError} b.txns ≡ ok e.block.transactions)
        × (execute_txns d e.block.transactions s ≡ (ok e.receipts, s'))
        × (e.block.header.number ≡ b.block_number)
        × (e.block.header.usecs ≡ b.usecs)
        × (e.block.header.parent_state_root ≡ (get_state_root s).bytes)
        × (e.block.header.state_root ≡ (get_state_root s').bytes)
        × (e.root.bytes ≡ (get_state_root s').bytes)
        × (hash ≡ (get_state_root s').bytes)
  execute_block-seals b s s' p p' h =
      let (txs, read, sealed) = execute_block-eq-ok b s s' p p' h in
      let (e, put, same, run, number, usecs, parent, root, stored, answer) =
        seal_block-eq-ok b txs (get_state_root s).bytes (execute_txns d txs s) p p' sealed in
      (e, put, rw same read, rw same run, number, usecs, parent, root, stored, answer)
