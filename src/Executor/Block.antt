-- ===== src/Executor/Block.antt =====
-- `execute_block` of executor/executor.rs, and the blocks that wait for their commit.
use gravity_kvstore.Prelude.{
  ℕ, Bytes, nat_eq, List, [], ◌∷◌, ◌++◌, Outcome, ok, err, panic, ◌>>=◌, continue,
}
use gravity_kvstore.Dict.{Dict, insert}
use gravity_kvstore.Types.{TransactionReceipt, TransactionWithAccount, Block, StateRoot}
use gravity_kvstore.Types.Deps.{Deps}
use gravity_kvstore.Types.Convert.{from_verified}
use gravity_kvstore.State.{State, get_state_root}
use gravity_kvstore.Executor.{ExecuteError, execute_next}

-- `(StateRoot, Block, Vec<TransactionReceipt>)`
pub record PendingBlock : Type 0 where
  pub root : StateRoot
  pub block : Block
  pub receipts : List TransactionReceipt

abbrev pub Pending : Type 0
Pending = Dict ℕ PendingBlock

-- The receipts pushed before a rest of the loop, and those of the rest.
abbrev pub gather :
    List TransactionReceipt
    → Outcome ExecuteError (List TransactionReceipt) × State
    → Outcome ExecuteError (List TransactionReceipt) × State
gather receipts (rest, state) = ((rest >>= λ more. ok (receipts ++ more)), state)

module _ (d : Deps) where
  -- The loop over the transactions, with the receipts that it pushes.
  unfoldable pub execute_txns :
      List TransactionWithAccount → State → Outcome ExecuteError (List TransactionReceipt) × State
  execute_txns [] state = (ok [], state)
  execute_txns (tx ∷ txs) state =
      continue (execute_next d tx state) λ receipts s. gather receipts (execute_txns txs s)

  -- The `collect` of the block's transactions.
  unfoldable pub block_txns :
      {E : Type 0} → List d.VerifiedTxn → Outcome E (List TransactionWithAccount)
  block_txns [] = ok []
  block_txns (v ∷ vs) = do tx ← from_verified d v; txs ← block_txns vs; ok (tx ∷ txs)

  -- What the code reads of gravity_sdk's `ExternalBlock`.
  pub record ExternalBlock : Type 0 where
    pub block_id : Bytes
    pub block_number : ℕ
    pub usecs : ℕ
    pub txns : List d.VerifiedTxn

  -- `execute_block` from the loop on: the block is put together from the roots before and after,
  -- and waits under its number.
  unfoldable pub seal_block :
      ExternalBlock
      → List TransactionWithAccount
      → Bytes
      → Outcome ExecuteError (List TransactionReceipt) × State
      → Pending
      → Outcome ExecuteError Bytes × State × Pending
  seal_block external txs parent_state_root (ok receipts, state) pending =
      let current_state_root = (get_state_root state).bytes in
      let block : Block = record {
        header = record {
          number = external.block_number;
          parent_state_root = parent_state_root;
          state_root = current_state_root;
          usecs = external.usecs;
        };
        transactions = txs;
      } in
      let entry : PendingBlock = record {
        root = record { bytes = current_state_root };
        block = block;
        receipts = receipts;
      } in
      (ok (get_state_root state).bytes, state, insert block.header.number entry pending)
  seal_block external txs parent_state_root (err e, state) pending = (err e, state, pending)
  seal_block external txs parent_state_root (panic, state) pending = (panic, state, pending)

  unfoldable pub execute_block :
      ExternalBlock → State → Pending → Outcome ExecuteError Bytes × State × Pending
  execute_block external state pending = elim (block_txns external.txns) [
    | ok txs ↦ seal_block external txs (get_state_root state).bytes (execute_txns txs state) pending
    | err e ↦ (err e, state, pending)
    | panic ↦ (panic, state, pending)
  ]
