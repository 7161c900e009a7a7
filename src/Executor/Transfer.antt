-- ===== src/Executor/Transfer.antt =====
-- The effect of a transfer and of a set, for executor/executor.rs.
use gravity_kvstore.Prelude.{
  ℕ, ◌+◌, ◌-◌, ◌≤◌, ◌<◌, ◌≡◌, refl, Text, bytes_eq, bytes_beq, some, List, [], ◌∷◌, ◌++◌, ok, arith,
  u64_mod, ap, ◌∙◌, subst, if◌then◌else◌,
}
use gravity_kvstore.Types.{
  AccountId, AccountState, transfer, TransactionReceipt, TransactionWithAccount,
}
use gravity_kvstore.Types.Deps.{Deps}
use gravity_kvstore.Crypto.{verify_signature}
use gravity_kvstore.State.{State, get_account, update_account_state}
use gravity_kvstore.State.Laws.{get_account-update}
use gravity_kvstore.Executor.{
  sender_state, receiver_state, execute_kind, apply_updates, execute_next,
}
use gravity_kvstore.Executor.Effects.{
  execute_from-eq-valid, execute_valid-eq-some, execute_next-eq-some,
}

module _ (d : Deps) where
  -- The receiver's update alone, and the amount is covered.
  pub execute_kind-transfer :
      (receiver : Text) (amount : ℕ) (sender : AccountState) (s : State) {after : AccountState}
      {updates : List (AccountId × AccountState)}
      → (receiver_state receiver s).balance + amount < u64_mod
      → execute_kind d (transfer receiver amount) sender s ≡ ok (after, updates)
      → (amount ≤ sender.balance)
        × (after ≡ record sender { balance = sender.balance - amount })
        × (updates
            ≡ (
              record { text = receiver },
              record (receiver_state receiver s) {
                balance = (receiver_state receiver s).balance + amount;
              },
            )
              ∷ [])
  unfolding execute_kind
  execute_kind-transfer receiver amount sender s fits h = ground arith

  pub apply_updates-last :
      (updates : List (AccountId × AccountState)) (id : AccountId) (account : AccountState)
      (s : State)
      → apply_updates d (updates ++ (id, account) ∷ []) s
        ≡ update_account_state d id account (apply_updates d updates s)
  unfolding apply_updates
  apply_updates-last [] id account s = refl
  apply_updates-last ((i, a) ∷ updates) id account s =
      apply_updates-last updates id account (update_account_state d i a s)

  -- The state after a transaction that has a receipt, by the updates of its kind.
  pub execute_next-state :
      (t : TransactionWithAccount) (sender : Text) (s s' : State) {r : TransactionReceipt}
      → (sender_state sender s).nonce + 1 < u64_mod
      → verify_signature d t.txn ≡ ok sender
      → execute_next d t s ≡ (ok (r ∷ []), s')
      → (after : AccountState) × (updates : List (AccountId × AccountState)) × (execute_kind d
            t.txn.unsigned.kind
            (sender_state sender s)
            s
          ≡ ok (after, updates))
        × (s'
            ≡ update_account_state d
                (record { text = sender })
                (record after { nonce = (sender_state sender s).nonce + 1 })
                (apply_updates d updates s))
  unfolding apply_updates
  execute_next-state t sender s s' {r} fits v h =
      let (e, applied) = execute_next-eq-some d t sender s s' v h in
      let valid = execute_from-eq-valid d t.txn sender s e in
      let (after, updates, kind, listed) = execute_valid-eq-some d t.txn sender s fits valid.1 in
      (
        after,
        updates,
        kind,
        applied
            ∙ ap (λ ups. apply_updates d ups s) listed
            ∙ apply_updates-last updates (record { text = sender })
                (record after { nonce = (sender_state sender s).nonce + 1 }) s,
      )

  -- The state after a transfer: the receiver's update, and over it the sender's.
  pub transfer-state :
      (t : TransactionWithAccount) (sender receiver : Text) (amount : ℕ) (s s' : State)
      {r : TransactionReceipt}
      → verify_signature d t.txn ≡ ok sender
      → t.txn.unsigned.kind ≡ transfer receiver amount
      → (sender_state sender s).nonce + 1 < u64_mod
      → (receiver_state receiver s).balance + amount < u64_mod
      → execute_next d t s ≡ (ok (r ∷ []), s')
      → (amount ≤ (sender_state sender s).balance)
        × (s'
            ≡ update_account_state d
                (record { text = sender })
                (record (sender_state sender s) {
                  balance = (sender_state sender s).balance - amount;
                  nonce = (sender_state sender s).nonce + 1;
                })
                (update_account_state d
                  (record { text = receiver })
                  (record (receiver_state receiver s) {
                    balance = (receiver_state receiver s).balance + amount;
                  })
                  s))
  unfolding apply_updates
  transfer-state t sender receiver amount s s' v kind fits room h =
      let (after, updates, k, e) = execute_next-state t sender s s' fits v h in
      let (cover, ea, eu) =
        execute_kind-transfer receiver amount (sender_state sender s) s room
          (subst (λ q. execute_kind d q (sender_state sender s) s ≡ ok (after, updates)) kind k) in
      (cover, rw (e, ea, eu))

  -- After a transfer that has its receipt, where the sender's next nonce and the receiver's
  -- balance with the amount fit in a `u64`: the amount was covered; the sender's account has that
  -- much less and the next nonce; the receiver's, if it is another, has that much more; and every
  -- further account is as before.
  pub transfer_moves :
      (t : TransactionWithAccount) (sender receiver : Text) (amount : ℕ) (s s' : State) (a : Text)
      {r : TransactionReceipt}
      → verify_signature d t.txn ≡ ok sender
      → t.txn.unsigned.kind ≡ transfer receiver amount
      → (sender_state sender s).nonce + 1 < u64_mod
      → (receiver_state receiver s).balance + amount < u64_mod
      → execute_next d t s ≡ (ok (r ∷ []), s')
      → (amount ≤ (sender_state sender s).balance)
        × (get_account a s' ≡ (
            if bytes_beq sender a
            then some (record (sender_state sender s) {
              balance = (sender_state sender s).balance - amount;
              nonce = (sender_state sender s).nonce + 1;
            })
            else if bytes_beq receiver a
            then some (record (receiver_state receiver s) {
              balance = (receiver_state receiver s).balance + amount;
            })
            else get_account a s))
  transfer_moves t sender receiver amount s s' a v kind fits room h =
      let (cover, e) = transfer-state t sender receiver amount s s' v kind fits room h in
      (cover, rw e (simp get_account-update))
