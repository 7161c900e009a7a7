-- ===== src/Executor/Supply.antt =====
-- The sum of all balances over a block, for executor/executor.rs.
use gravity_kvstore.Prelude.{
  ℕ, ◌+◌, ◌*◌, ◌≤◌, ◌<◌, ◌≡◌, refl, ◌≢◌, subst, Text, bytes_eq, bytes_beq, bytes_beq_iff, Option,
  none, some, List, [], ◌∷◌, ok, arith, u64_mod, length, All, inl, inr, Bool-cases,
}
use gravity_kvstore.Dict.{Dict, lookup}
use gravity_kvstore.Types.{
  AccountId, AccountState, TransactionKind, transfer, set_kv, TransactionReceipt,
  TransactionWithAccount,
}
use gravity_kvstore.Types.Deps.{Deps}
use gravity_kvstore.Crypto.{verify_signature}
use gravity_kvstore.State.{State, get_account, update_account_state}
use gravity_kvstore.Executor.{sender_state, receiver_state, execute_kind, execute_next}
use gravity_kvstore.Executor.Block.{execute_txns}
use gravity_kvstore.Executor.Transfer.{execute_next-state}
use gravity_kvstore.Executor.Conserve.{
  sum_balances, balance_or_zero, total, grant, total-update, transfer-total, self_transfer_burns,
}
use gravity_kvstore.Executor.Set.{set-state}
use gravity_kvstore.Executor.Replay.{
  HasNext, execute_txns-eq-ok, execute_next-signed, execute_next-cases,
}
use gravity_kvstore.Executor.Nonces.{nonce-sender_state, nonce_of-next}

balance-le :
    (a : Text) (accounts : Dict Text AccountState)
    → balance_or_zero (lookup a accounts) ≤ sum_balances accounts
balance-le a [] = omega arith
balance-le a ((j, account) ∷ accounts) = ground (arith, balance-le a accounts)

pub sender-le : (a : Text) (s : State) → (sender_state a s).balance ≤ total s + 5000000000
unfolding sender_state get_account
sender-le a s = ground (arith, balance-le a s.accounts)

pub receiver-le : (a : Text) (s : State) → (receiver_state a s).balance ≤ total s
unfolding receiver_state get_account
receiver-le a s = ground (arith, balance-le a s.accounts)

module _ (d : Deps) where
  covers :
      (receiver : Text) (amount : ℕ) (sender : AccountState) (s : State)
      {p : AccountState × List (AccountId × AccountState)}
      → execute_kind d (transfer receiver amount) sender s ≡ ok p
      → amount ≤ sender.balance
  unfolding execute_kind
  covers receiver amount sender s h = ground arith

  grant-le : (o : Option AccountState) → grant o ≤ 5000000000
  grant-le none = omega arith
  grant-le (some account) = omega arith

  set-total :
      (sender : Text) (account : AccountState) (s : State)
      → account.balance ≡ (sender_state sender s).balance
      → total (update_account_state d (record { text = sender }) account s) ≤ total s + 5000000000
  unfolding sender_state
  set-total sender account s same = ground (arith, total-update d sender account s)

  -- One transaction that is executed.
  kind-total :
      (kind : TransactionKind) (t : TransactionWithAccount) (sender : Text) (s s' : State)
      {r : TransactionReceipt}
      → t.txn.unsigned.kind ≡ kind
      → verify_signature d t.txn ≡ ok sender
      → (sender_state sender s).nonce + 1 < u64_mod
      → 2 * (total s + 5000000000) < u64_mod
      → execute_next d t s ≡ (ok (r ∷ []), s')
      → total s' ≤ total s + 5000000000
  kind-total (transfer receiver amount) t sender s s' same v fits small h =
      let (after, updates, k, _) = execute_next-state d t sender s s' fits v h in
      let cover =
        covers receiver amount (sender_state sender s) s
          (subst (λ q. execute_kind d q (sender_state sender s) s ≡ ok (after, updates)) same k) in
      let room : (receiver_state receiver s).balance + amount < u64_mod =
        omega (arith, cover, sender-le sender s, receiver-le receiver s) in
      elim (Bool-cases (bytes_beq sender receiver)) [
        | inl one ↦
            let itself = (bytes_beq_iff sender receiver).0 one in
            let burnt =
              self_transfer_burns d t sender amount s s' v (rw itself same) fits (rw itself room)
                h in
            omega (arith, burnt.1, grant-le (get_account sender s))
        | inr two ↦
            let apart : sender ≢ receiver = λ e. ground (arith, bytes_beq_iff sender receiver) in
            let kept = transfer-total d t sender receiver amount s s' v same apart fits room h in
            omega (arith, kept, grant-le (get_account sender s))
      ]
  kind-total (set_kv key value) t sender s s' same v fits small h =
      rw (set-state d t sender key value s s' v same fits h) (set-total sender _ s refl)

  pub execute_next-total :
      (t : TransactionWithAccount) (s s' : State) {rs : List TransactionReceipt}
      → HasNext t
      → 2 * (total s + 5000000000) < u64_mod
      → execute_next d t s ≡ (ok rs, s')
      → total s' ≤ total s + 5000000000
  execute_next-total t s s' fits small h =
      let (sender, v) = execute_next-signed d t s s' h in
      elim (execute_next-cases d t sender s s' v h) [
        | inl (same, skip) ↦ rw same (omega arith)
        | inr (r, e) ↦
            let run = rw e at h in
            let moved = nonce_of-next d t sender s s' sender v fits run in
            kind-total t.txn.unsigned.kind t sender s s' refl v
              (omega (arith, moved.0, nonce-sender_state sender s)) small run
      ]

  -- A run over transactions, none of which has the last `u64` as its nonce, that does not panic,
  -- from balances whose sum and the grants of 5000000000 for each of the transactions are together
  -- below half of the range of `u64`, makes the sum grow by no more than these grants.
  pub execute_txns-total :
      (txs : List TransactionWithAccount) (s s' : State) {rs : List TransactionReceipt}
      → All HasNext txs
      → 2 * (total s + 5000000000 * length txs) < u64_mod
      → execute_txns d txs s ≡ (ok rs, s')
      → total s' ≤ total s + 5000000000 * length txs
  unfolding execute_txns
  execute_txns-total [] s s' fits small h = ground arith
  execute_txns-total (t ∷ txs) s s' fits small h =
      let (s₁, first, rest, e, run, joined) = execute_txns-eq-ok d t txs s s' h in
      let one = execute_next-total t s s₁ fits.0 (omega arith) e in
      let more = execute_txns-total txs s₁ s' fits.1 (omega arith) run in omega arith
