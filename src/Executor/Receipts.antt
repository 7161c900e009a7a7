-- ===== src/Executor/Receipts.antt =====
-- The receipts that executor/executor.rs makes carry a hash of 32 bytes.
use gravity_kvstore.Prelude.{◌≡◌, Text, List, [], ◌∷◌, some, ok, arith, All, All-append, >>=-eq-ok}
use gravity_kvstore.Types.{Transaction, TransactionReceipt, TransactionWithAccount}
use gravity_kvstore.Types.Deps.{Deps, KeccakLaws, BincodeLaws}
use gravity_kvstore.Crypto.Signing.{compute_transaction_hash-ok}
use gravity_kvstore.State.{State}
use gravity_kvstore.Storage.{HasHash}
use gravity_kvstore.Executor.{
  ExecuteError, execute_valid, execute_from, execute_transaction, execute_next,
}
use gravity_kvstore.Executor.Block.{execute_txns}
use gravity_kvstore.Executor.Replay.{execute_txns-eq-ok}

module _ (d : Deps) (sha : KeccakLaws d) (bincode : BincodeLaws d) where
  execute_valid-HasHash :
      (tx : Transaction) (sender : Text) (s : State) {r : TransactionReceipt}
      → execute_valid d tx sender s ≡ ok (some r)
      → HasHash r
  unfolding execute_valid
  execute_valid-HasHash tx sender s h = ground (
    arith,
    compute_transaction_hash-ok d bincode {E = ExecuteError} tx.unsigned,
    sha.length-keccak (bincode.encoded tx.unsigned),
  )

  execute_transaction-HasHash :
      (tx : Transaction) (s : State) {r : TransactionReceipt}
      → execute_transaction d tx s ≡ ok (some r)
      → HasHash r
  unfolding execute_transaction execute_from
  execute_transaction-HasHash tx s {r} h =
      let (sender, _, from) = >>=-eq-ok _ (λ sender. execute_from d tx sender s) h in
      execute_valid-HasHash tx sender s {r = r} (ground arith)

  execute_next-HasHash :
      (t : TransactionWithAccount) (s s' : State) {rs : List TransactionReceipt}
      → execute_next d t s ≡ (ok rs, s')
      → All HasHash rs
  unfolding execute_next
  execute_next-HasHash t s s' {rs = []} h = tt
  execute_next-HasHash t s s' {rs = r ∷ []} h =
      (execute_transaction-HasHash t.txn s {r = r} (ground arith), tt)
  execute_next-HasHash t s s' {rs = r ∷ r' ∷ rs} h = absurd (ground arith)

  -- Every receipt of a run has the 32 bytes of a digest for its hash.
  pub execute_txns-HasHash :
      (txs : List TransactionWithAccount) (s s' : State) {rs : List TransactionReceipt}
      → execute_txns d txs s ≡ (ok rs, s')
      → All HasHash rs
  unfolding execute_txns
  execute_txns-HasHash [] s s' {rs = []} h = tt
  execute_txns-HasHash [] s s' {rs = r ∷ rs} h = absurd (ground arith)
  execute_txns-HasHash (t ∷ txs) s s' h =
      let (s₁, first, rest, e, run, joined) = execute_txns-eq-ok d t txs s s' h in
      rw joined (
        All-append HasHash first rest (execute_next-HasHash t s s₁ e)
          (execute_txns-HasHash txs s₁ s' run))
