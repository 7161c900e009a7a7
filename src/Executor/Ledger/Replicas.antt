-- ===== src/Executor/Ledger/Replicas.antt =====
-- Two nodes that run the execute task of executor/executor.rs on the same transactions.
use gravity_kvstore.Prelude.{
  ◌+◌, ◌*◌, ◌<◌, ◌≡◌, refl, sym, ◌∙◌, ap, Text, Option, List, [], ◌∷◌, Outcome, ok, u64_mod, length,
  All,
}
use gravity_kvstore.Types.{TransactionWithAccount}
use gravity_kvstore.Types.Deps.{Deps, BincodeLaws}
use gravity_kvstore.Crypto.{
  verify_signature, compute_transaction_hash, recover_signer, public_key_to_address,
}
use gravity_kvstore.State.{State}
use gravity_kvstore.Executor.{ExecuteError}
use gravity_kvstore.Executor.Block.{ExternalBlock}
use gravity_kvstore.Executor.Tasks.{ExecuteTask, execute_task}
use gravity_kvstore.Executor.Conserve.{total}
use gravity_kvstore.Executor.Replay.{HasNext}
use gravity_kvstore.Executor.Chain.{blocks_of}
use gravity_kvstore.Executor.Ledger.{Ledger, all, view}
use gravity_kvstore.Executor.Ledger.Refines.{signer, sent, Implements-agree}
use gravity_kvstore.Executor.Ledger.Blocks.{Achieves, Reads}
use gravity_kvstore.Executor.Ledger.Rounds.{Answers, execute_task-Achieves}

-- A node whose hash maps are iterated in another order.
abbrev pub iterating : (List (Text × Text) → List (Text × Text)) → Deps → Deps
iterating order d = record d { iter = order }

Achieves-agree :
    {R : Type 0} (r r' : Outcome ExecuteError R × ExecuteTask) (o : Option Ledger)
    → Achieves r o
    → Achieves r' o
    → (done : ExecuteTask) {a : R} → r ≡ (ok a, done)
    → (done' : ExecuteTask) × (a' : R) × (r' ≡ (ok a', done'))
      × (view done.state ≡ view done'.state)
Achieves-agree {R = R} (r, task) (r', task') o h h' done e =
    let (s, a', e', same) =
      Implements-agree (r, task.state) (r', task'.state) o h h' done.state
        (ap (λ (p : Outcome ExecuteError R × ExecuteTask). (p.0, p.1.state)) e) in
    (
      task',
      a',
      ap (λ (p : Outcome ExecuteError R × State). (p.0, task')) e',
      same ∙ ap (λ (p : Outcome ExecuteError R × State). view p.1) (sym e'),
    )

-- What a run of the execute task needs, so that the ledger says what it does.
module _ (d : Deps) where
  abbrev pub IsInRange :
      List (Outcome Text (List (ExternalBlock d)))
      → List TransactionWithAccount
      → ExecuteTask
      → Type 0
  IsInRange answers txs task =
      All Answers answers
      × (task.start_num + length (blocks_of d answers) < u64_mod)
      × Reads d (blocks_of d answers) txs
      × (2 * (total task.state + 5000000000 * length txs) < u64_mod)

module _ (d : Deps) (bincode : BincodeLaws d)
    (order : List (Text × Text) → List (Text × Text)) where
  sent-iterating : (txs : List TransactionWithAccount) → sent (iterating order d) txs ≡ sent d txs
  unfolding verify_signature compute_transaction_hash recover_signer public_key_to_address
  sent-iterating [] = refl
  sent-iterating (t ∷ txs) =
      ap (λ rest. (signer (verify_signature d t.txn), t.txn.unsigned) ∷ rest) (sent-iterating txs)

  BincodeLaws-iterating : BincodeLaws (iterating order d)
  BincodeLaws-iterating = record {
    encoded = bincode.encoded;
    bincode-ok = bincode.bincode-ok;
    encoded_transaction = bincode.encoded_transaction;
    bincode_transaction-ok = bincode.bincode_transaction-ok;
  }

  -- Under the laws of bincode: two nodes, each of which iterates its hash maps in its own order,
  -- begin with the same accounts and run the execute task on answers with the same transactions,
  -- each cut in its own way into blocks and answers. No transaction has the last `u64` as its nonce,
  -- no answer is a panic, and on both nodes the next number asked for stays in the range of `u64`
  -- and the balances, with the grants of 5000000000 for each transaction, together below half of it.
  -- If the run of the one does not panic, neither does that of the other, and both end with the same
  -- accounts: the same nonce, balance and value under every key.
  pub replicas_agree :
      (answers : List (Outcome Text (List (ExternalBlock d))))
      (answers' : List (Outcome Text (List (ExternalBlock (iterating order d)))))
      (txs : List TransactionWithAccount) (task task' done : ExecuteTask)
      → All HasNext txs
      → IsInRange d answers txs task
      → IsInRange (iterating order d) answers' txs task'
      → view task.state ≡ view task'.state
      → execute_task d answers task ≡ (ok tt, done)
      → (done' : ExecuteTask) × (execute_task (iterating order d) answers' task' ≡ (ok tt, done'))
        × (view done.state ≡ view done'.state)
  replicas_agree answers answers' txs task task' done fits (g, n, r, b) (g', n', r', b') same h =
      let here = execute_task-Achieves d bincode answers txs task g n r fits b in
      let there =
        execute_task-Achieves (iterating order d) BincodeLaws-iterating answers' txs task' g' n' r'
          fits b' in
      let (done', _, e, agree) =
        Achieves-agree (execute_task d answers task)
          (execute_task (iterating order d) answers' task') (all (sent d txs) (view task.state))
          here (rw (same, sym (sent-iterating txs)) there) done h in
      (done', e, agree)
