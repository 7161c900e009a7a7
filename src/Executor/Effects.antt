-- ===== src/Executor/Effects.antt =====
-- What one executed transaction does to the accounts: executor/executor.rs.
use gravity_kvstore.Prelude.{
  ◌+◌, ◌<◌, ◌≡◌, Text, bytes_eq, some, List, [], ◌∷◌, ◌++◌, ok, arith, u64_mod, >>=-eq-ok,
}
use gravity_kvstore.Types.{
  AccountId, AccountState, Transaction, TransactionKind, transfer, set_kv, TransactionReceipt,
  TransactionWithAccount,
}
use gravity_kvstore.Types.Deps.{Deps}
use gravity_kvstore.State.{State}
use gravity_kvstore.Executor.{
  sender_state, execute_kind, execute_valid, execute_from, apply_updates, execute_next,
  execute_transaction,
}
use gravity_kvstore.Crypto.{verify_signature}

module _ (d : Deps) where
  -- The kind changes no nonce of the sender.
  pub nonce-execute_kind :
      (kind : TransactionKind) (sender : AccountState) (s : State) {after : AccountState}
      {updates : List (AccountId × AccountState)}
      → execute_kind d kind sender s ≡ ok (after, updates)
      → after.nonce ≡ sender.nonce
  unfolding execute_kind
  nonce-execute_kind (transfer receiver amount) sender s h = ground arith
  nonce-execute_kind (set_kv key value) sender s h = ground arith

  -- Past the tests of the nonce, the nonce is the sender's.
  pub execute_from-eq-valid :
      (tx : Transaction) (sender : Text) (s : State) {r : TransactionReceipt}
      → execute_from d tx sender s ≡ ok (some r)
      → (tx.unsigned.nonce ≡ (sender_state sender s).nonce)
        × (execute_valid d tx sender s ≡ ok (some r))
  unfolding execute_from
  execute_from-eq-valid tx sender s h = ground arith

  pub execute_valid-eq-some :
      (tx : Transaction) (sender : Text) (s : State) {r : TransactionReceipt}
      → (sender_state sender s).nonce + 1 < u64_mod
      → execute_valid d tx sender s ≡ ok (some r)
      → (after : AccountState) × (updates : List (AccountId × AccountState)) × (execute_kind d
            tx.unsigned.kind
            (sender_state sender s)
            s
          ≡ ok (after, updates))
        × (r.state_updates
            ≡ updates
              ++ (
                record { text = sender },
                record after { nonce = (sender_state sender s).nonce + 1 },
              )
                ∷ [])
  unfolding execute_valid
  execute_valid-eq-some tx sender s fits h =
      let (p, e, rest) =
        >>=-eq-ok (execute_kind d tx.unsigned.kind (sender_state sender s) s) _ h in
      (p.0, p.1, e, ground (arith, nonce-execute_kind tx.unsigned.kind (sender_state sender s) s e))

  pub execute_transaction-eq-from :
      (tx : Transaction) (sender : Text) (s : State)
      → verify_signature d tx ≡ ok sender
      → execute_transaction d tx s ≡ execute_from d tx sender s
  unfolding execute_transaction
  execute_transaction-eq-from tx sender s v = rw v

  -- A transaction that has its receipt: it ran from its sender, and its updates were applied.
  pub execute_next-eq-some :
      (t : TransactionWithAccount) (sender : Text) (s s' : State) {r : TransactionReceipt}
      → verify_signature d t.txn ≡ ok sender
      → execute_next d t s ≡ (ok (r ∷ []), s')
      → (execute_from d t.txn sender s ≡ ok (some r)) × (s' ≡ apply_updates d r.state_updates s)
  unfolding execute_next
  execute_next-eq-some t sender s s' v h =
      ground (arith, execute_transaction-eq-from t.txn sender s v)
