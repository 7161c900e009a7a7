-- ===== src/Executor/Set.antt =====
-- The effect of a `SetKV`, for executor/executor.rs.
use gravity_kvstore.Prelude.{
  ◌+◌, ◌<◌, ◌≡◌, refl, subst, Text, bytes_eq, bytes_beq, if◌then◌else◌, some, List, [], ◌∷◌, ok,
  arith, u64_mod,
}
use gravity_kvstore.Dict.{insert, lookup}
use gravity_kvstore.Dict.Laws.{lookup-insert}
use gravity_kvstore.Types.{
  AccountId, AccountState, set_kv, TransactionReceipt, TransactionWithAccount,
}
use gravity_kvstore.Types.Deps.{Deps}
use gravity_kvstore.Crypto.{verify_signature}
use gravity_kvstore.State.{State, get_account, update_account_state}
use gravity_kvstore.State.Laws.{get_account-update}
use gravity_kvstore.Executor.{sender_state, execute_kind, apply_updates, execute_next}
use gravity_kvstore.Executor.Transfer.{execute_next-state}

module _ (d : Deps) where
  execute_kind-set_kv :
      (key value : Text) (sender : AccountState) (s : State) {after : AccountState}
      {updates : List (AccountId × AccountState)}
      → execute_kind d (set_kv key value) sender s ≡ ok (after, updates)
      → (after ≡ record sender { kv_store = insert key value sender.kv_store }) × (updates ≡ [])
  unfolding execute_kind
  execute_kind-set_kv key value sender s h = ground arith

  -- The state after a set: the sender's update.
  pub set-state :
      (t : TransactionWithAccount) (sender key value : Text) (s s' : State) {r : TransactionReceipt}
      → verify_signature d t.txn ≡ ok sender
      → t.txn.unsigned.kind ≡ set_kv key value
      → (sender_state sender s).nonce + 1 < u64_mod
      → execute_next d t s ≡ (ok (r ∷ []), s')
      → s'
        ≡ update_account_state d
            (record { text = sender })
            (record (sender_state sender s) {
              nonce = (sender_state sender s).nonce + 1;
              kv_store = insert key value (sender_state sender s).kv_store;
            })
            s
  unfolding apply_updates
  set-state t sender key value s s' v kind fits h =
      let (after, updates, k, e) = execute_next-state d t sender s s' fits v h in
      let (ea, eu) =
        execute_kind-set_kv key value (sender_state sender s) s
          (subst (λ q. execute_kind d q (sender_state sender s) s ≡ ok (after, updates)) kind k) in
      rw (e, ea, eu)

  -- After a set that has its receipt, where the sender's next nonce fits in a `u64`, the sender's
  -- store has the value under the key and is otherwise as before, its balance stays, its nonce is
  -- the next, and every other account is as before.
  pub set_writes :
      (t : TransactionWithAccount) (sender key value : Text) (s s' : State) (a k : Text)
      {r : TransactionReceipt}
      → verify_signature d t.txn ≡ ok sender
      → t.txn.unsigned.kind ≡ set_kv key value
      → (sender_state sender s).nonce + 1 < u64_mod
      → execute_next d t s ≡ (ok (r ∷ []), s')
      → (account : AccountState) × (get_account a s'
          ≡ (if bytes_beq sender a then some account else get_account a s))
        × (account.nonce ≡ (sender_state sender s).nonce + 1)
        × (account.balance ≡ (sender_state sender s).balance)
        × (lookup k account.kv_store
            ≡ (if bytes_beq key k then some value else lookup k (sender_state sender s).kv_store))
  set_writes t sender key value s s' a k v kind fits h = (
    record (sender_state sender s) {
      nonce = (sender_state sender s).nonce + 1;
      kv_store = insert key value (sender_state sender s).kv_store;
    },
    rw (set-state t sender key value s s' v kind fits h) (simp get_account-update),
    refl,
    refl,
    lookup-insert key k value (sender_state sender s).kv_store,
  )
