-- ===== src/Executor/Node/Number.antt =====
-- The block number of the state, which nothing in executor/executor.rs, app/server.rs or
-- app/shell.rs takes up.
use gravity_kvstore.Prelude.{
  ℕ, ◌<◌, ◌≡◌, refl, ◌∙◌, Bytes, nat_eq, bytes_eq, none, some, List, [], ◌∷◌, Outcome, ok, err,
  panic, u64_mod, continue-keeps, Outcome-cases, inl, inr,
}
use gravity_kvstore.Types.{AccountId, AccountState, TransactionReceipt, TransactionWithAccount}
use gravity_kvstore.Types.Deps.{Deps, KeccakLaws, BincodeLaws}
use gravity_kvstore.State.{State, get_state_root, get_current_block_number, update_account_state}
use gravity_kvstore.Storage.{Storage, IsStorage}
use gravity_kvstore.Executor.{ExecuteError, execute_transaction, apply_updates, execute_next}
use gravity_kvstore.Executor.Block.{
  ExternalBlock, Pending, block_txns, execute_txns, gather, seal_block, execute_block,
}
use gravity_kvstore.Server.Keeps.{add_txn-IsKept}
use gravity_kvstore.Shell.{Shell}
use gravity_kvstore.Shell.Keeps.{handle_command-IsReady}
use gravity_kvstore.Executor.Node.{
  Node, IsSound, context_of, Step, request, command, execute, commit, Run, begin, after,
}
use gravity_kvstore.Executor.Node.Sound.{Run-IsSound}

module _ (d : Deps) (k : ℕ) where
  abbrev At : State → Type 0
  At s = get_current_block_number s ≡ k

  apply_updates-At :
      (updates : List (AccountId × AccountState)) (s : State)
      → At s
      → At (apply_updates d updates s)
  unfolding apply_updates update_account_state get_current_block_number
  apply_updates-At [] s h = h
  apply_updates-At ((id, account) ∷ rest) s h =
      apply_updates-At rest (update_account_state d id account s) h

  execute_next-At : (t : TransactionWithAccount) (s : State) → At s → At (execute_next d t s).1
  unfolding execute_next
  execute_next-At t s h = elim (Outcome-cases (execute_transaction d t.txn s)) [
    | inl (none, e) ↦ rw (e, execute_next) h
    | inl (some r, e) ↦ rw (e, execute_next) (apply_updates-At r.state_updates s h)
    | inr (inl (e', e)) ↦ rw (e, execute_next) h
    | inr (inr e) ↦ rw (e, execute_next) h
  ]

  execute_txns-At :
      (txs : List TransactionWithAccount) (s : State) → At s → At (execute_txns d txs s).1
  unfolding execute_txns
  execute_txns-At [] s h = h
  execute_txns-At (t ∷ txs) s h =
      continue-keeps At (execute_next d t s)
        (λ receipts s'. gather receipts (execute_txns d txs s')) (execute_next-At t s h)
        (λ _ s' h'. execute_txns-At txs s' h')

  seal_block-At :
      (b : ExternalBlock d) (txs : List TransactionWithAccount) (parent : Bytes)
      (run : Outcome ExecuteError (List TransactionReceipt) × State) (p : Pending)
      → At run.1
      → At (seal_block d b txs parent run p).1
  unfolding seal_block
  seal_block-At b txs parent (ok receipts, s) p h = h
  seal_block-At b txs parent (err e, s) p h = h
  seal_block-At b txs parent (panic, s) p h = h

  execute_block-At :
      (b : ExternalBlock d) (s : State) (p : Pending) → At s → At (execute_block d b s p).1
  unfolding execute_block
  execute_block-At b s p h = elim (Outcome-cases (block_txns d {E = ExecuteError} b.txns)) [
    | inl (txs, e) ↦
        rw (e, execute_block)
          (seal_block-At b txs (get_state_root s).bytes (execute_txns d txs s) p
            (execute_txns-At txs s h))
    | inr (inl (e', e)) ↦ rw (e, execute_block) h
    | inr (inr e) ↦ rw (e, execute_block) h
  ]

module _ (d : Deps) (sha : KeccakLaws d) (bincode : BincodeLaws d) {S : Type 0}
    (storage : Storage S) (laws : IsStorage storage) where
  Step-number :
      (m : ℕ) {n n' : Node S}
      → IsSound d storage m n
      → Step d storage n n'
      → get_current_block_number n'.state ≡ get_current_block_number n.state
  Step-number m (pool, _, _) (request n t fits) =
      rw (add_txn-IsKept d n.state n.store t (context_of n) fits (refl, refl, pool)).0 refl
  Step-number m (pool, _, _) (command n keypair args nonces) =
      let shell : Shell d S = record { context = context_of n; keypair = keypair } in
      rw (handle_command-IsReady d n.state n.store nonces storage args shell (refl, refl, pool)).0
        refl
  Step-number m h (execute n b fits) =
      execute_block-At d (get_current_block_number n.state) b n.state n.pending refl
  Step-number m h (commit n start k) = refl

  -- From a sound node on, whatever has come in, in whatever order: the block number of the state
  -- is as it was.
  pub Run-number :
      (m : ℕ) {n n' : Node S}
      → m < u64_mod
      → Run d storage n n'
      → IsSound d storage m n
      → get_current_block_number n'.state ≡ get_current_block_number n.state
  Run-number m hm begin h = refl
  Run-number m hm (after run step) h =
      Step-number m (Run-IsSound d sha bincode storage laws m hm run h) step ∙ Run-number m hm run h
