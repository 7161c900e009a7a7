-- ===== src/Executor/Runs.antt =====
-- A `SetKV` with the sender's nonce is executed: executor/executor.rs.
use gravity_kvstore.Prelude.{◌+◌, ◌<◌, ◌≡◌, sym, subst, Text, [], ◌∷◌, ok, arith, u64_mod, inl, inr}
use gravity_kvstore.Types.{set_kv, TransactionReceipt, TransactionWithAccount}
use gravity_kvstore.Types.Deps.{Deps, BincodeLaws}
use gravity_kvstore.Crypto.{verify_signature}
use gravity_kvstore.State.{State}
use gravity_kvstore.Executor.{sender_state, execute_next, apply_updates}
use gravity_kvstore.Executor.Branches.{execute_transaction_outcome, HasRoom, Lacks}

module _ (d : Deps) (bincode : BincodeLaws d) where
  -- It is neither skipped nor refused, whatever the state.
  pub set_runs :
      (t : TransactionWithAccount) (sender key value : Text) (s : State)
      → verify_signature d t.txn ≡ ok sender
      → t.txn.unsigned.kind ≡ set_kv key value
      → t.txn.unsigned.nonce ≡ (sender_state sender s).nonce
      → t.txn.unsigned.nonce + 1 < u64_mod
      → (r : TransactionReceipt) × (s' : State) × (execute_next d t s ≡ (ok (r ∷ []), s'))
  unfolding execute_next
  set_runs t sender key value s v kind same fits =
      elim (execute_transaction_outcome d bincode t.txn s sender v (omega arith)
        (subst (λ q. HasRoom q s) (sym kind) tt)) [
          | inl (less, _) ↦ absurd (omega arith)
          | inr (inl (more, _)) ↦ absurd (omega arith)
          | inr (inr (inl (_, lacks, _))) ↦
              absurd (subst (λ q. Lacks q (sender_state sender s)) kind lacks)
          | inr (inr (inr (_, _, (r, done, _, _, _)))) ↦
              (r, apply_updates d r.state_updates s, ground arith)
        ]
