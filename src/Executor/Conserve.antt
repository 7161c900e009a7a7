-- ===== src/Executor/Conserve.antt =====
-- The sum of all balances under a transfer, for executor/executor.rs.
use gravity_kvstore.Prelude.{
  ℕ, ◌+◌, ◌-◌, ◌<◌, ◌≡◌, ◌≢◌, sym, Text, bytes_eq, bytes_beq_refl, bytes_beq_ne, Option, none, some,
  [], ◌∷◌, ok, arith, u64_mod,
}
use gravity_kvstore.Dict.{Dict, insert, lookup}
use gravity_kvstore.Types.{AccountState, transfer, TransactionReceipt, TransactionWithAccount}
use gravity_kvstore.Types.Deps.{Deps}
use gravity_kvstore.Crypto.{verify_signature}
use gravity_kvstore.State.{State, get_account, update_account_state}
use gravity_kvstore.State.Laws.{get_account-update}
use gravity_kvstore.Executor.{sender_state, receiver_state, execute_next}
use gravity_kvstore.Executor.Transfer.{transfer-state}

-- The sum of the balances of a table of accounts.
abbrev pub sum_balances : Dict Text AccountState → ℕ
sum_balances [] = 0
sum_balances ((_, account) ∷ accounts) = account.balance + sum_balances accounts

abbrev pub balance_or_zero : Option AccountState → ℕ
balance_or_zero none = 0
balance_or_zero (some account) = account.balance

abbrev pub total : State → ℕ
total s = sum_balances s.accounts

-- What the state has of a sender that it does not know.
abbrev pub grant : Option AccountState → ℕ
grant none = 5000000000
grant (some _) = 0

sum_balances-insert :
    (a : Text) (account : AccountState) (accounts : Dict Text AccountState)
    → sum_balances (insert a account accounts) + balance_or_zero (lookup a accounts)
      ≡ sum_balances accounts + account.balance
sum_balances-insert a account [] = omega arith
sum_balances-insert a account ((j, old) ∷ accounts) =
    ground (arith, sum_balances-insert a account accounts)

module _ (d : Deps) where
  pub total-update :
      (a : Text) (account : AccountState) (s : State)
      → total (update_account_state d (record { text = a }) account s)
          + balance_or_zero (get_account a s)
        ≡ total s + account.balance
  unfolding update_account_state get_account
  total-update a account s = sum_balances-insert a account s.accounts

  -- A transfer between two accounts that has its receipt, where the sender's next nonce and the
  -- receiver's balance with the amount fit in a `u64`, keeps the sum of all balances, but for the
  -- grant of 5000000000 to a sender that the state did not know.
  pub transfer-total :
      (t : TransactionWithAccount) (sender receiver : Text) (amount : ℕ) (s s' : State)
      {r : TransactionReceipt}
      → verify_signature d t.txn ≡ ok sender
      → t.txn.unsigned.kind ≡ transfer receiver amount
      → sender ≢ receiver
      → (sender_state sender s).nonce + 1 < u64_mod
      → (receiver_state receiver s).balance + amount < u64_mod
      → execute_next d t s ≡ (ok (r ∷ []), s')
      → total s' ≡ total s + grant (get_account sender s)
  unfolding sender_state receiver_state
  transfer-total t sender receiver amount s s' v kind ne fits room h =
      let (cover, e) = transfer-state d t sender receiver amount s s' v kind fits room h in
      let paid = record (sender_state sender s) {
        balance = (sender_state sender s).balance - amount;
        nonce = (sender_state sender s).nonce + 1;
      } in
      let got = record (receiver_state receiver s) {
        balance = (receiver_state receiver s).balance + amount;
      } in
      let mid = update_account_state d (record { text = receiver }) got s in
      rw e (
        ground (
          arith,
          total-update sender paid mid,
          total-update receiver got s,
          get_account-update d (record { text = receiver }) got s sender,
          bytes_beq_ne receiver sender (λ q. ne (sym q)),
        ))

  -- A transfer of an account to itself that has its receipt, where the next nonce and the balance
  -- with the amount fit in a `u64`, loses the amount: the update of the sender, made before the
  -- amount came in, stands over that of the receiver, and the sum of all balances, but for the
  -- grant to a new sender, falls by the amount.
  pub self_transfer_burns :
      (t : TransactionWithAccount) (sender : Text) (amount : ℕ) (s s' : State)
      {r : TransactionReceipt}
      → verify_signature d t.txn ≡ ok sender
      → t.txn.unsigned.kind ≡ transfer sender amount
      → (sender_state sender s).nonce + 1 < u64_mod
      → (receiver_state sender s).balance + amount < u64_mod
      → execute_next d t s ≡ (ok (r ∷ []), s')
      → (get_account sender s'
          ≡ some (record (sender_state sender s) {
            balance = (sender_state sender s).balance - amount;
            nonce = (sender_state sender s).nonce + 1;
          }))
        × (total s' + amount ≡ total s + grant (get_account sender s))
  unfolding sender_state receiver_state
  self_transfer_burns t sender amount s s' v kind fits room h =
      let (cover, e) = transfer-state d t sender sender amount s s' v kind fits room h in
      let paid = record (sender_state sender s) {
        balance = (sender_state sender s).balance - amount;
        nonce = (sender_state sender s).nonce + 1;
      } in
      let got = record (receiver_state sender s) {
        balance = (receiver_state sender s).balance + amount;
      } in
      let mid = update_account_state d (record { text = sender }) got s in
      (
        rw e (simp (get_account-update, bytes_beq_refl)),
        rw e (
            ground (
              arith,
              total-update sender paid mid,
              total-update sender got s,
              get_account-update d (record { text = sender }) got s sender,
              bytes_beq_refl sender,
            )),
      )
