-- ===== src/Tests/Executor.antt =====
-- Runs of executor/executor.rs.
use gravity_kvstore.Prelude.{
  ◌*◌, bytes_eq, nat_eq, ◌+◌, ◌≤◌, ◌≡◌, refl, inl, inr, ap, arith, Text, some, [], ◌∷◌, ok, err,
  get_or, All,
}
use gravity_kvstore.Types.{transfer}
use gravity_kvstore.State.{State, get_account, update_account_state}
use gravity_kvstore.Crypto.{
  verify_signature, compute_transaction_hash, recover_signer, public_key_to_address,
}
use gravity_kvstore.Executor.{
  invalid_nonce, sender_state, receiver_state, execute_kind, execute_valid, execute_from,
  execute_transaction, apply_updates, execute_next,
}
use gravity_kvstore.Executor.Block.{execute_txns}
use gravity_kvstore.Executor.Transfer.{transfer_moves}
use gravity_kvstore.Executor.Conserve.{transfer-total, self_transfer_burns, total}
use gravity_kvstore.Executor.Supply.{execute_txns-total}
use gravity_kvstore.Executor.Branches.{execute_transaction_outcome}
use gravity_kvstore.Executor.Nonces.{nonce_of}
use gravity_kvstore.Executor.Replay.{IsSpent, execute_txns-spends, execute_txns_again}
use gravity_kvstore.Samples.Packages.{packages, bincode_laws}
use gravity_kvstore.Tests.Fixtures.{alice, bob, pay, pay_self, genesis, signed, after_pay}

-- A transaction of alice, executed.
transfer_moves_example :
    (100 ≤ 1000)
    × (get_account bob after_pay ≡ some (record { nonce = 0; balance = 100; kv_store = [] }))
unfolding verify_signature compute_transaction_hash recover_signer public_key_to_address
    sender_state receiver_state execute_kind execute_valid execute_from execute_transaction
    apply_updates execute_next get_account
transfer_moves_example =
    transfer_moves packages pay alice bob 100 genesis after_pay bob refl refl (omega arith)
      (omega arith) refl

transfer-total_example : total after_pay ≡ 1000
unfolding verify_signature compute_transaction_hash recover_signer public_key_to_address
    sender_state receiver_state execute_kind execute_valid execute_from execute_transaction
    apply_updates execute_next get_account
transfer-total_example =
    transfer-total packages pay alice bob 100 genesis after_pay refl refl
      (λ e. omega (arith, ap (λ (t : Text). get_or t 39 0) e)) (omega arith) (omega arith) refl

abbrev after_self : State
after_self =
    update_account_state packages (record { text = alice })
      (record { nonce = 1; balance = 900; kv_store = [] })
      (update_account_state packages (record { text = alice })
        (record { nonce = 0; balance = 1100; kv_store = [] }) genesis)

self_transfer_burns_example :
    (get_account alice after_self ≡ some (record { nonce = 1; balance = 900; kv_store = [] }))
    × (total after_self + 100 ≡ 1000)
unfolding verify_signature compute_transaction_hash recover_signer public_key_to_address
    sender_state receiver_state execute_kind execute_valid execute_from execute_transaction
    apply_updates execute_next get_account
self_transfer_burns_example =
    self_transfer_burns packages pay_self alice 100 genesis after_self refl refl (omega arith)
      (omega arith) refl

execute_txns-spends_example :
    All (λ t. IsSpent packages t after_pay) (pay ∷ pay ∷ [])
    × ((a : Text) → nonce_of a genesis ≤ nonce_of a after_pay)
unfolding verify_signature compute_transaction_hash recover_signer public_key_to_address
    sender_state receiver_state execute_kind execute_valid execute_from execute_transaction
    apply_updates execute_next get_account execute_txns update_account_state
execute_txns-spends_example =
    execute_txns-spends packages (pay ∷ pay ∷ []) genesis after_pay (omega arith) refl

execute_txns_again_example : execute_txns packages (pay ∷ []) after_pay ≡ (ok [], after_pay)
unfolding verify_signature compute_transaction_hash recover_signer public_key_to_address
    sender_state receiver_state execute_kind execute_valid execute_from execute_transaction
    apply_updates execute_next get_account execute_txns
execute_txns_again_example =
    execute_txns_again packages (pay ∷ []) genesis after_pay (omega arith) refl

-- A transaction two numbers ahead.
execute_transaction_outcome_example :
    execute_transaction packages (signed 2 (transfer bob 100)).txn genesis
    ≡ err (invalid_nonce (signed 2 (transfer bob 100)).txn 0 genesis)
unfolding verify_signature compute_transaction_hash recover_signer public_key_to_address
    sender_state receiver_state get_account
execute_transaction_outcome_example =
    elim (execute_transaction_outcome packages bincode_laws (signed 2 (transfer bob 100)).txn
      genesis alice refl (omega arith) (omega arith)) [
        | inl (less, _) ↦ absurd (omega arith)
        | inr (inl (_, e)) ↦ e
        | inr (inr (inl (same, _, _))) ↦ absurd (omega arith)
        | inr (inr (inr (same, _, _))) ↦ absurd (omega arith)
      ]

execute_txns-total_example : total after_pay ≤ 1000 + 5000000000 * 2
unfolding verify_signature compute_transaction_hash recover_signer public_key_to_address
    sender_state receiver_state execute_kind execute_valid execute_from execute_transaction
    apply_updates execute_next get_account execute_txns update_account_state
execute_txns-total_example =
    execute_txns-total packages (pay ∷ pay ∷ []) genesis after_pay (omega arith) (omega arith) refl
