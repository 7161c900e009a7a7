-- ===== src/Executor/Ledger/Reorder.antt =====
-- Runs of executor/executor.rs over the same transactions in another order.
use gravity_kvstore.Prelude.{
  ◌+◌, ◌*◌, ◌<◌, ◌≡◌, ◌≢◌, refl, sym, ◌∙◌, ap, fun_ext, Text, List, ◌∷◌, ok, arith, u64_mod, length,
  All,
}
use gravity_kvstore.Types.{TransactionReceipt, TransactionWithAccount}
use gravity_kvstore.Types.Deps.{Deps, BincodeLaws}
use gravity_kvstore.Crypto.{verify_signature}
use gravity_kvstore.State.{State}
use gravity_kvstore.Executor.Block.{execute_txns}
use gravity_kvstore.Executor.Conserve.{total}
use gravity_kvstore.Executor.Replay.{HasNext}
use gravity_kvstore.Executor.Ledger.{Ledger, next, next_from, and_then, all, view}
use gravity_kvstore.Executor.Ledger.Append.{and_then_assoc}
use gravity_kvstore.Executor.Ledger.Order.{SetsKey, next-next}
use gravity_kvstore.Executor.Ledger.Refines.{
  signer, sent, execute_txns-Implements, Implements-agree,
}

module _ (d : Deps) where
  -- One list is the other, but for transactions of different signers that set a key and come in
  -- another order.
  pub data Reorders : List TransactionWithAccount → List TransactionWithAccount → Type 0 where
    alike : (txs : List TransactionWithAccount) → Reorders txs txs
    swap :
        (t u : TransactionWithAccount) (a b : Text) (txs : List TransactionWithAccount)
        → verify_signature d t.txn ≡ ok a
        → verify_signature d u.txn ≡ ok b
        → a ≢ b
        → SetsKey t.txn.unsigned.kind
        → SetsKey u.txn.unsigned.kind
        → Reorders (t ∷ u ∷ txs) (u ∷ t ∷ txs)
    skip :
        (t : TransactionWithAccount) (txs txs' : List TransactionWithAccount)
        → Reorders txs txs'
        → Reorders (t ∷ txs) (t ∷ txs')
    follow :
        (txs txs' txs'' : List TransactionWithAccount)
        → Reorders txs txs'
        → Reorders txs' txs''
        → Reorders txs txs''

  length-Reorders :
      (txs txs' : List TransactionWithAccount) → Reorders txs txs' → length txs ≡ length txs'
  length-Reorders _ _ (alike txs) = refl
  length-Reorders _ _ (swap t u a b txs _ _ _ _ _) = refl
  length-Reorders _ _ (skip t txs txs' r) = omega (arith, length-Reorders txs txs' r)
  length-Reorders _ _ (follow txs txs' txs'' r q) =
      length-Reorders txs txs' r ∙ length-Reorders txs' txs'' q

  All-Reorders :
      (P : TransactionWithAccount → Type 0) (txs txs' : List TransactionWithAccount)
      → Reorders txs txs'
      → All P txs
      → All P txs'
  All-Reorders P _ _ (alike txs) h = h
  All-Reorders P _ _ (swap t u a b txs _ _ _ _ _) (p, (q, h)) = (q, (p, h))
  All-Reorders P _ _ (skip t txs txs' r) (p, h) = (p, All-Reorders P txs txs' r h)
  All-Reorders P _ _ (follow txs txs' txs'' r q) h =
      All-Reorders P txs' txs'' q (All-Reorders P txs txs' r h)

  all-Reorders :
      (txs txs' : List TransactionWithAccount) (ledger : Ledger)
      → Reorders txs txs'
      → all (sent d txs) ledger ≡ all (sent d txs') ledger
  all-Reorders _ _ ledger (alike txs) = refl
  all-Reorders _ _ ledger (swap t u a b txs v w apart st su) =
      rw (v, w)
        (sym (
            and_then_assoc (next t.txn.unsigned a ledger) (next u.txn.unsigned b)
              (all (sent d txs)))
          ∙ ap (λ o. and_then o (all (sent d txs)))
              (next-next t.txn.unsigned u.txn.unsigned a b ledger st su apart)
          ∙ and_then_assoc (next u.txn.unsigned b ledger) (next t.txn.unsigned a)
              (all (sent d txs)))
  all-Reorders _ _ ledger (skip t txs txs' r) =
      ap (and_then (next_from (signer (verify_signature d t.txn)) t.txn.unsigned ledger))
        (fun_ext λ l. all-Reorders txs txs' l r)
  all-Reorders _ _ ledger (follow txs txs' txs'' r q) =
      all-Reorders txs txs' ledger r ∙ all-Reorders txs' txs'' ledger q

  -- Under the laws of bincode: two lists of transactions differ only in the order of transactions of
  -- different signers that set a key. None has the last `u64` as its nonce, and the sum of the
  -- balances and the grants of 5000000000 for each of them are together below half of the range of
  -- `u64`. If the run over the one list does not panic, neither does that over the other, and both
  -- end with the same accounts: the same nonce, balance and value under every key.
  pub execute_txns-Reorders :
      (bincode : BincodeLaws d) (txs txs' : List TransactionWithAccount) (s done : State)
      {rs : List TransactionReceipt}
      → Reorders txs txs'
      → All HasNext txs
      → 2 * (total s + 5000000000 * length txs) < u64_mod
      → execute_txns d txs s ≡ (ok rs, done)
      → (done' : State) × (rs' : List TransactionReceipt) × (execute_txns d txs' s
          ≡ (ok rs', done'))
        × (view done ≡ view done')
  execute_txns-Reorders bincode txs txs' s done order fits small h =
      let len = length-Reorders txs txs' order in
      let here = execute_txns-Implements d bincode txs s fits small in
      let there =
        execute_txns-Implements d bincode txs' s (All-Reorders HasNext txs txs' order fits)
          (rw len at small) in
      Implements-agree (execute_txns d txs s) (execute_txns d txs' s) (all (sent d txs) (view s))
        here (rw (all-Reorders txs txs' (view s) order) there) done h
