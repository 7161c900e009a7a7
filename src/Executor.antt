-- ===== src/Executor.antt =====
-- executor/executor.rs: the execution of one transaction. The children have the block and the tasks.
pub mod Block
pub mod Effects
pub mod Transfer
pub mod Set
pub mod Conserve
pub mod Supply
pub mod Branches
pub mod Nonces
pub mod Replay
pub mod Ledger
pub mod Seal
pub mod Chain
pub mod Gap
pub mod Runs
pub mod Receipts
pub mod Node
pub mod Commit
pub mod Committed
pub mod Tasks
pub mod Pipeline
use gravity_kvstore.Prelude.{
  ℕ, zero, suc, ◌+◌, ◌-◌, ◌%◌, ltb, if◌then◌else◌, true, Text, Bytes, bytes_eq, nat_eq, Option,
  none, some, List, [], ◌∷◌, ◌++◌, Outcome, ok, err, panic, unwrap, map_err, ◌>>=◌, add_wrap,
  sub_wrap, u64_mod,
}
use gravity_kvstore.Dict.{Dict, lookup, insert}
use gravity_kvstore.Types.{
  AccountId, AccountState, Transaction, TransactionKind, transfer, set_kv, TransactionReceipt,
  TransactionWithAccount,
}
use gravity_kvstore.Types.Deps.{Deps}
use gravity_kvstore.Types.Convert.{from_verified}
use gravity_kvstore.Crypto.{SignatureError, verify_signature, compute_transaction_hash}
use gravity_kvstore.State.{State, get_account, get_state_root, update_account_state}

-- The `Err` of `execute_transaction`: the message of `verify_signature`, or one of its own with
-- what it formats.
pub data ExecuteError : Type 0 where
  signature : SignatureError → ExecuteError
  -- transaction, nonce of the sender, state
  invalid_nonce : Transaction → ℕ → State → ExecuteError
  insufficient_balance : ExecuteError

-- The sender that the state does not know.
abbrev pub new_sender : AccountState
new_sender = record { nonce = 0; balance = 5000000000; kv_store = [] }

abbrev pub new_receiver : AccountState
new_receiver = record { nonce = 0; balance = 0; kv_store = [] }

abbrev pub account_or : AccountState → Option AccountState → AccountState
account_or fresh none = fresh
account_or fresh (some account) = account

unfoldable pub sender_state : Text → State → AccountState
sender_state sender state = account_or new_sender (get_account sender state)

unfoldable pub receiver_state : Text → State → AccountState
receiver_state receiver state = account_or new_receiver (get_account receiver state)

module _ (d : Deps) where
  -- The `match` on the kind: the sender's new state but for its nonce, and the updates pushed.
  unfoldable pub execute_kind :
      TransactionKind
      → AccountState
      → State
      → Outcome ExecuteError (AccountState × List (AccountId × AccountState))
  execute_kind (transfer receiver amount) sender state =
      if ltb sender.balance amount then err insufficient_balance else (do
        let to = receiver_state receiver state
        left ← sub_wrap d.overflow_checks u64_mod sender.balance amount
        sum ← add_wrap d.overflow_checks u64_mod to.balance amount
        ok (
          record sender { balance = left },
          (record { text = receiver }, record to { balance = sum }) ∷ [],
        ))
  execute_kind (set_kv key value) sender state =
      ok (record sender { kv_store = insert key value sender.kv_store }, [])

  -- `execute_transaction` once the nonce is the sender's.
  unfoldable pub execute_valid :
      Transaction → Text → State → Outcome ExecuteError (Option TransactionReceipt)
  execute_valid tx sender state = do
    (sender_state', updates) ← execute_kind tx.unsigned.kind (sender_state sender state) state
    nonce' ← add_wrap d.overflow_checks u64_mod sender_state'.nonce 1
    hash ← compute_transaction_hash d tx.unsigned
    ok (
        some (record {
          transaction = tx;
          transaction_hash = hash;
          status = true;
          gas_used = 21000;
          state_updates =
              updates ++ (record { text = sender }, record sender_state' { nonce = nonce' }) ∷ [];
          logs = [];
        }))

  -- `execute_transaction` once the sender is known: the tests of the nonce.
  unfoldable pub execute_from :
      Transaction → Text → State → Outcome ExecuteError (Option TransactionReceipt)
  execute_from tx sender state =
      let known = (sender_state sender state).nonce in
      if ltb tx.unsigned.nonce known
      then ok none
      else if ltb known tx.unsigned.nonce
      then err (invalid_nonce tx known state)
      else execute_valid tx sender state

  unfoldable pub execute_transaction :
      Transaction → State → Outcome ExecuteError (Option TransactionReceipt)
  execute_transaction tx state = do
    sender ← map_err signature (verify_signature d tx)
    execute_from tx sender state

  -- The loop over `receipt.state_updates`.
  unfoldable pub apply_updates : List (AccountId × AccountState) → State → State
  apply_updates [] state = state
  apply_updates ((account_id, account) ∷ rest) state =
      apply_updates rest (update_account_state d account_id account state)

  -- One round of the loop over the transactions. A panic leaves what was written.
  unfoldable pub execute_next :
      TransactionWithAccount → State → Outcome ExecuteError (List TransactionReceipt) × State
  execute_next tx state = elim (execute_transaction tx.txn state) [
    | ok none ↦ (ok [], state)
    | ok (some receipt) ↦ (ok (receipt ∷ []), apply_updates receipt.state_updates state)
    | err _ ↦ (panic, state)
    | panic ↦ (panic, state)
  ]
