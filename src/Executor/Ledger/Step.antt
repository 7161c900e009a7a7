-- ===== src/Executor/Ledger/Step.antt =====
-- One transaction of executor/executor.rs against the ledger.
use gravity_kvstore.Prelude.{
  ℕ, ◌+◌, ◌*◌, ◌<◌, ◌≡◌, sym, subst, ◌∙◌, ap, Text, bytes_eq, Option, none, some, [], ◌∷◌, Outcome,
  ok, err, panic, arith, u64_mod, inl, inr,
}
use native.Mathlib.Decide.{dec_le}
use gravity_kvstore.Types.{
  AccountState, TransactionKind, transfer, set_kv, TransactionReceipt, TransactionWithAccount,
}
use gravity_kvstore.Types.Deps.{Deps, BincodeLaws}
use gravity_kvstore.Crypto.{verify_signature}
use gravity_kvstore.State.{State}
use gravity_kvstore.Executor.{
  ExecuteError, insufficient_balance, sender_state, receiver_state, execute_kind, execute_from,
  execute_next, apply_updates,
}
use gravity_kvstore.Executor.Effects.{execute_transaction-eq-from}
use gravity_kvstore.Executor.Branches.{
  HasRoom, Affords, Lacks, execute_transaction_outcome, execute_valid-insufficient,
}
use gravity_kvstore.Executor.Conserve.{total}
use gravity_kvstore.Executor.Supply.{sender-le, receiver-le}
use gravity_kvstore.Executor.Transfer.{transfer-state}
use gravity_kvstore.Executor.Set.{set-state}
use gravity_kvstore.Executor.Replay.{HasNext}
use gravity_kvstore.Executor.Ledger.{Ledger, move, holder_of, view, view-update_account_state}
use gravity_kvstore.Executor.Ledger.Moves.{move-poor, move-transfer, move-set, view-two}

-- The run gives the ledger's next state, or panics where the ledger has none.
abbrev pub Implements : {R : Type 0} → Outcome ExecuteError R × State → Option Ledger → Type 0
Implements (ok r, s) o = o ≡ some (view s)
Implements (err e, s) o = ⊥
Implements (panic, s) o = o ≡ none

Implements-ok :
    {R : Type 0} {run : Outcome ExecuteError R × State} (r : R) (s' : State) (ledger : Ledger)
    (o : Option Ledger)
    → run ≡ (ok r, s')
    → view s' ≡ ledger
    → o ≡ some ledger
    → Implements run o
Implements-ok r s' ledger o ran seen e =
    subst (λ q. Implements q o) (sym ran) (e ∙ ap some (sym seen))

module _ (d : Deps) (bincode : BincodeLaws d) (t : TransactionWithAccount) (sender : Text)
    (s : State) (v : verify_signature d t.txn ≡ ok sender)
    (same : t.txn.unsigned.nonce ≡ (sender_state sender s).nonce) (fits : HasNext t) where
  -- A transaction that is paid for has its receipt.
  runs :
      HasRoom t.txn.unsigned.kind s
      → Affords t.txn.unsigned.kind (sender_state sender s)
      → (r : TransactionReceipt) × (s' : State) × (execute_next d t s ≡ (ok (r ∷ []), s'))
  unfolding execute_next
  runs room affords =
      elim (execute_transaction_outcome d bincode t.txn s sender v (omega arith) room) [
        | inl (less, _) ↦ absurd (omega arith)
        | inr (inl (more, _)) ↦ absurd (omega arith)
        | inr (inr (inl (_, lacks, _))) ↦
            absurd (cannot t.txn.unsigned.kind (sender_state sender s) affords lacks)
        | inr (inr (inr (_, _, (r, done, _, _, _)))) ↦
            (r, apply_updates d r.state_updates s, ground arith)
      ]
    where
      cannot :
          (kind : TransactionKind) (account : AccountState)
          → Affords kind account
          → Lacks kind account
          → ⊥
      cannot (transfer receiver amount) account affords lacks = omega arith
      cannot (set_kv key value) account affords lacks = lacks

  -- One that is not panics.
  fails :
      execute_kind d t.txn.unsigned.kind (sender_state sender s) s ≡ err insufficient_balance
      → execute_next d t s ≡ (panic, s)
  unfolding execute_next execute_from
  fails poor = ground (
    arith,
    execute_transaction-eq-from d t.txn sender s v,
    execute_valid-insufficient d bincode t.txn s sender poor,
  )

  transfer-Implements :
      (receiver : Text) (amount : ℕ)
      → t.txn.unsigned.kind ≡ transfer receiver amount
      → 2 * (total s + 5000000000) < u64_mod
      → Implements
          (execute_next d t s)
          (move (transfer receiver amount) sender (holder_of (sender_state sender s)) (view s))
  unfolding execute_kind
  transfer-Implements receiver amount kind small =
      elim (dec_le amount (sender_state sender s).balance) [
        | yes affords ↦
            let room : (receiver_state receiver s).balance + amount < u64_mod =
              omega (arith, sender-le sender s, receiver-le receiver s) in
            let (r, s', ran) =
              runs (subst (λ q. HasRoom q s) (sym kind) room)
                (subst (λ q. Affords q (sender_state sender s)) (sym kind) affords) in
            let (_, state) =
              transfer-state d t sender receiver amount s s' v kind (omega arith) room ran in
            Implements-ok (r ∷ []) s' _ _ ran (ap view state ∙ view-two d sender receiver _ _ s)
              (move-transfer sender receiver amount s affords)
        | no poor ↦
            subst
              (λ q. Implements q (
                move (transfer receiver amount) sender (holder_of (sender_state sender s))
                  (view s)))
              (sym (
                fails (
                  subst (λ q. execute_kind d q (sender_state sender s) s ≡ err insufficient_balance)
                    (sym kind) (ground arith))))
              (move-poor sender receiver amount s (omega arith))
      ]

  set-Implements :
      (key value : Text)
      → t.txn.unsigned.kind ≡ set_kv key value
      → Implements
          (execute_next d t s)
          (move (set_kv key value) sender (holder_of (sender_state sender s)) (view s))
  set-Implements key value kind =
      let (r, s', ran) =
        runs (subst (λ q. HasRoom q s) (sym kind) tt)
          (subst (λ q. Affords q (sender_state sender s)) (sym kind) tt) in
      let state = set-state d t sender key value s s' v kind (omega arith) ran in
      Implements-ok (r ∷ []) s' _ _ ran
        (ap view state ∙ view-update_account_state d (record { text = sender }) _ s)
        (move-set sender key value s)

  pub kind-Implements :
      (kind : TransactionKind)
      → t.txn.unsigned.kind ≡ kind
      → 2 * (total s + 5000000000) < u64_mod
      → Implements
          (execute_next d t s)
          (move kind sender (holder_of (sender_state sender s)) (view s))
  kind-Implements (transfer receiver amount) e small = transfer-Implements receiver amount e small
  kind-Implements (set_kv key value) e small = set-Implements key value e
