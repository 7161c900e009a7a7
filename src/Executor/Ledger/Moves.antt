-- ===== src/Executor/Ledger/Moves.antt =====
-- What the ledger makes of one transaction, by the accounts of state/state.rs.
use gravity_kvstore.Prelude.{
  ℕ, ◌+◌, ◌-◌, ◌≤◌, ◌<◌, ◌≡◌, sym, ◌∙◌, ap, Text, bytes_eq, none, some, arith,
}
use gravity_kvstore.Dict
use gravity_kvstore.Types.{AccountState, transfer, set_kv, UnsignedTransaction}
use gravity_kvstore.Types.Deps.{Deps}
use gravity_kvstore.State.{State, update_account_state}
use gravity_kvstore.Executor.{sender_state, receiver_state}
use gravity_kvstore.Executor.Ledger.{
  put, move, next, holder_of, view, holder_of-sender_state, holder_of-receiver_state,
  view-update_account_state, holder_of-insert,
}

module _ (tx : UnsignedTransaction) (sender : Text) (s : State) where
  pub next-behind :
      tx.nonce < (sender_state sender s).nonce → next tx sender (view s) ≡ some (view s)
  next-behind h = rw (holder_of-sender_state sender s) (ground arith)

  pub next-ahead : (sender_state sender s).nonce < tx.nonce → next tx sender (view s) ≡ none
  next-ahead h = rw (holder_of-sender_state sender s) (ground arith)

  pub next-same :
      tx.nonce ≡ (sender_state sender s).nonce
      → next tx sender (view s) ≡ move tx.kind sender (holder_of (sender_state sender s)) (view s)
  next-same h = rw (holder_of-sender_state sender s) (ground arith)

module _ (sender receiver : Text) (amount : ℕ) (s : State) where
  pub move-poor :
      (sender_state sender s).balance < amount
      → move (transfer receiver amount) sender (holder_of (sender_state sender s)) (view s) ≡ none
  move-poor h = ground arith

  pub move-transfer :
      amount ≤ (sender_state sender s).balance
      → move (transfer receiver amount) sender (holder_of (sender_state sender s)) (view s)
        ≡ some (
            put sender
              (holder_of (record (sender_state sender s) {
                balance = (sender_state sender s).balance - amount;
                nonce = (sender_state sender s).nonce + 1;
              }))
              (put receiver
                (holder_of (record (receiver_state receiver s) {
                  balance = (receiver_state receiver s).balance + amount;
                }))
                (view s)))
  move-transfer h = rw (holder_of-receiver_state receiver s) (ground arith)

pub move-set :
    (sender key new : Text) (s : State)
    → let account = sender_state sender s in
      move (set_kv key new) sender (holder_of account) (view s)
      ≡ some (
          put sender
            (holder_of (record account {
              nonce = account.nonce + 1;
              kv_store = Dict.insert key new account.kv_store;
            }))
            (view s))
move-set sender key new s =
    ap (λ h. some (put sender h (view s)))
      (sym (holder_of-insert key new ((sender_state sender s).nonce + 1) (sender_state sender s)))

pub view-two :
    (d : Deps) (a b : Text) (p q : AccountState) (s : State)
    → view (
        update_account_state d
          (record { text = a })
          p
          (update_account_state d (record { text = b }) q s))
      ≡ put a (holder_of p) (put b (holder_of q) (view s))
view-two d a b p q s =
    view-update_account_state d (record { text = a }) p _
    ∙ ap (put a (holder_of p)) (view-update_account_state d (record { text = b }) q s)
