-- ===== src/Executor/Ledger/Blocks.antt =====
-- The blocks that executor/executor.rs executes one after the other, against the ledger.
use gravity_kvstore.Prelude.{
  ◌+◌, ◌*◌, ◌≤◌, ◌<◌, ◌≡◌, refl, sym, subst, ◌∙◌, ap, Bytes, Option, some, List, [], ◌∷◌, ◌++◌,
  Outcome, ok, err, panic, ok-inj, continue, arith, u64_mod, length, length-append, append_assoc,
  append-nil, All, All-split,
}
use gravity_kvstore.Types.{TransactionReceipt, TransactionWithAccount}
use gravity_kvstore.Types.Deps.{Deps, BincodeLaws}
use gravity_kvstore.State.{State, get_state_root}
use gravity_kvstore.Crypto.{verify_signature}
use gravity_kvstore.Executor.{ExecuteError}
use gravity_kvstore.Executor.Block.{
  ExternalBlock, Pending, PendingBlock, block_txns, execute_txns, seal_block, execute_block,
}
use gravity_kvstore.Executor.Tasks.{ExecuteTask, execute_ordered, execute_all}
use gravity_kvstore.Executor.Conserve.{total}
use gravity_kvstore.Executor.Supply.{execute_txns-total}
use gravity_kvstore.Executor.Replay.{HasNext}
use gravity_kvstore.Executor.Chain.{execute_ordered-runs, IsChain}
use gravity_kvstore.Executor.Ledger.{Ledger, and_then, all, view}
use gravity_kvstore.Executor.Ledger.Append.{and_then-some, all-append}
use gravity_kvstore.Executor.Ledger.Step.{Implements}
use gravity_kvstore.Executor.Ledger.Refines.{signer, sent, execute_txns-Implements}

-- A run of the task gives the ledger's next state, or panics where the ledger has none.
abbrev pub Achieves : {R : Type 0} → Outcome ExecuteError R × ExecuteTask → Option Ledger → Type 0
Achieves (o, task) ledger = Implements (o, task.state) ledger

pub sent-append :
    (d : Deps) (txs txs' : List TransactionWithAccount)
    → sent d (txs ++ txs') ≡ sent d txs ++ sent d txs'
sent-append d [] txs' = refl
sent-append d (t ∷ txs) txs' =
    ap (λ rest. (signer (verify_signature d t.txn), t.txn.unsigned) ∷ rest) (sent-append d txs txs')

pub continue-Achieves :
    {A B : Type 0} (p : Outcome ExecuteError A × ExecuteTask)
    (k : A → ExecuteTask → Outcome ExecuteError B × ExecuteTask) (o : Option Ledger)
    (f : Ledger → Option Ledger)
    → Achieves p o
    → ((a : A) (task : ExecuteTask) → p ≡ (ok a, task) → Achieves (k a task) (f (view task.state)))
    → Achieves (continue p k) (and_then o f)
continue-Achieves (ok a, task) k o f one more =
    subst (λ q. Achieves (k a task) (and_then q f)) (sym one) (more a task refl)
continue-Achieves (err e, task) k o f one more = absurd one
continue-Achieves (panic, task) k o f one more = ap (λ q. and_then q f) one

module _ (d : Deps) where
  seal-Implements :
      (b : ExternalBlock d) (txs : List TransactionWithAccount) (root : Bytes)
      (run : Outcome ExecuteError (List TransactionReceipt) × State) (p : Pending)
      (o : Option Ledger)
      → Implements run o
      → let (answer, s, _) = seal_block d b txs root run p in Implements (answer, s) o
  unfolding seal_block
  seal-Implements b txs root (ok rs, s) p o h = h
  seal-Implements b txs root (err e, s) p o h = h
  seal-Implements b txs root (panic, s) p o h = h

  -- The transactions that are read of the blocks.
  abbrev pub Reads : List (ExternalBlock d) → List TransactionWithAccount → Type 0
  Reads [] txs = txs ≡ []
  Reads (b ∷ bs) txs =
      (now : List TransactionWithAccount) × (later : List TransactionWithAccount) × (block_txns d
          {E = ExecuteError} b.txns
        ≡ ok now)
      × Reads bs later
      × (txs ≡ now ++ later)

  pub Reads-split :
      (bs bs' : List (ExternalBlock d)) (txs : List TransactionWithAccount)
      → Reads (bs ++ bs') txs
      → (now : List TransactionWithAccount) × (later : List TransactionWithAccount) × Reads bs now
        × Reads bs' later
        × (txs ≡ now ++ later)
  Reads-split [] bs' txs h = ([], txs, refl, h, refl)
  Reads-split (b ∷ bs) bs' txs (now, later, read, rest, e) =
      let (now', later', read', rest', e') = Reads-split bs bs' later rest in
      (
        now ++ now',
        later',
        (now, now', read, read', refl),
        rest',
        rw (e, e', append_assoc now now' later'),
      )

  -- The grants of blocks that have been executed.
  pub IsChain-total :
      (bs : List (ExternalBlock d)) (es : List PendingBlock) (txs : List TransactionWithAccount)
      (s s' : State)
      → IsChain d s s' bs es
      → Reads bs txs
      → All HasNext txs
      → 2 * (total s + 5000000000 * length txs) < u64_mod
      → total s' ≤ total s + 5000000000 * length txs
  IsChain-total [] [] txs s s' same none_left fits small = rw (none_left, sym same) (omega arith)
  IsChain-total (b ∷ bs) (e ∷ es) txs s s' (s₁, (read', run, _, _, _, _, _), chain) reads fits
        small =
      let (now, later, read, rest, joined) = reads in
      let (fit, fit') = All-split HasNext now later (rw joined at fits) in
      let len : length txs ≡ length now + length later =
        ap length joined ∙ length-append now later in
      let agree : e.block.transactions ≡ now = ok-inj (sym read' ∙ read) in
      let one = execute_txns-total d now s s₁ fit (omega arith) (rw agree at run) in
      let more = IsChain-total bs es later s₁ s' chain rest fit' (omega arith) in omega arith
  IsChain-total [] (e ∷ es) txs s s' chain reads fits small = absurd chain
  IsChain-total (b ∷ bs) [] txs s s' chain reads fits small = absurd chain

  module _ (bincode : BincodeLaws d) where
    execute_block-Implements :
        (b : ExternalBlock d) (txs : List TransactionWithAccount) (s : State) (p : Pending)
        → block_txns d {E = ExecuteError} b.txns ≡ ok txs
        → All HasNext txs
        → 2 * (total s + 5000000000 * length txs) < u64_mod
        → let (answer, s', _) = execute_block d b s p in
          Implements (answer, s') (all (sent d txs) (view s))
    unfolding execute_block
    execute_block-Implements b txs s p read fits small =
        let root = (get_state_root s).bytes in
        let sealed =
          seal-Implements b txs root (execute_txns d txs s) p (all (sent d txs) (view s))
            (execute_txns-Implements d bincode txs s fits small) in
        let same : execute_block d b s p ≡ seal_block d b txs root (execute_txns d txs s) p =
          rw (read, execute_block) refl in
        subst
          (λ (q : Outcome ExecuteError Bytes × State × Pending).
            Implements (q.0, q.1) (all (sent d txs) (view s)))
          (sym same) sealed

    execute_ordered-Achieves :
        (b : ExternalBlock d) (txs : List TransactionWithAccount) (task : ExecuteTask)
        → block_txns d {E = ExecuteError} b.txns ≡ ok txs
        → All HasNext txs
        → 2 * (total task.state + 5000000000 * length txs) < u64_mod
        → Achieves (execute_ordered d b task) (all (sent d txs) (view task.state))
    unfolding execute_ordered
    execute_ordered-Achieves b txs task read fits small =
        let (answer, s, p) = execute_block d b task.state task.pending in
        subst (Achieves (execute_ordered d b task))
          (and_then-some (all (sent d txs) (view task.state)))
          (continue-Achieves (answer, record task { state = s; pending = p }) _
            (all (sent d txs) (view task.state)) some
            (execute_block-Implements b txs task.state task.pending read fits small)
            λ hash t e. refl)

    pub execute_all-Achieves :
        (bs : List (ExternalBlock d)) (txs : List TransactionWithAccount) (task : ExecuteTask)
        → Reads bs txs
        → All HasNext txs
        → 2 * (total task.state + 5000000000 * length txs) < u64_mod
        → Achieves (execute_all d bs task) (all (sent d txs) (view task.state))
    unfolding execute_all
    execute_all-Achieves [] txs task none_left fits small = rw none_left refl
    execute_all-Achieves (b ∷ bs) txs task (now, later, read, rest, e) fits small =
        let (fit, fit') = All-split HasNext now later (rw e at fits) in
        let len : length txs ≡ length now + length later = ap length e ∙ length-append now later in
        rw (e, sent-append d now later, all-append (sent d now) (sent d later) (view task.state))
          (continue-Achieves (execute_ordered d b task) _ (all (sent d now) (view task.state))
            (all (sent d later)) (execute_ordered-Achieves b now task read fit (omega arith))
            λ _ t ran.
              let ((es, chain, _, _), _) = execute_ordered-runs d b task t ran in
              let grown =
                IsChain-total (b ∷ []) es now task.state t.state chain
                  (now, [], read, refl, sym (append-nil now)) fit (omega arith) in
              execute_all-Achieves bs later t rest fit' (omega arith))
