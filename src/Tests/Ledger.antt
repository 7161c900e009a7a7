-- ===== src/Tests/Ledger.antt =====
-- Runs of executor/executor.rs against the ledger.
use gravity_kvstore.Prelude.{
  Text, bytes_eq, nat_eq, ◌≡◌, refl, arith, some, List, [], ◌∷◌, ◌++◌, ok, err, replicate, ascii,
  Outcome,
}
use gravity_kvstore.Types.Convert.{from_verified}
use gravity_kvstore.State.{State, get_account, get_state_root, update_account_state}
use gravity_kvstore.Types.Deps.{Deps}
use gravity_kvstore.Crypto.{
  verify_signature, compute_transaction_hash, recover_signer, public_key_to_address,
}
use gravity_kvstore.Executor.{
  sender_state, receiver_state, execute_kind, execute_valid, execute_from, execute_transaction,
  apply_updates, execute_next,
}
use gravity_kvstore.Executor.Block.{
  ExternalBlock, execute_txns, block_txns, execute_block, seal_block,
}
use gravity_kvstore.Executor.Tasks.{
  ExecuteTask, execute_ordered, execute_all, execute_round, execute_task,
}
use gravity_kvstore.Prelude.{ap, get_or}
use gravity_kvstore.Types.{TransactionWithAccount, TransactionReceipt, set_kv}
use gravity_kvstore.Samples.Hex.{encode}
use gravity_kvstore.Tests.Fixtures.{bob}
use gravity_kvstore.Executor.Ledger.Reorder.{swap, execute_txns-Reorders}
use gravity_kvstore.Executor.Ledger.{all, view}
use gravity_kvstore.Executor.Ledger.Refines.{sent}
use gravity_kvstore.Executor.Ledger.Rounds.{execute_task-Achieves}
use gravity_kvstore.Executor.Ledger.Replicas.{iterating, replicas_agree}
use gravity_kvstore.Samples.Packages.{packages, bincode_laws}
use gravity_kvstore.Samples.Wire.{write_txn, read_txn}
use gravity_kvstore.Tests.Fixtures.{alice, alice_account, pay, put, genesis, ordered, after_pay}

abbrev answers : List (Outcome Text (List (ExternalBlock packages)))
answers = ok (ordered ∷ []) ∷ err [] ∷ ok (record ordered { block_number = 2 } ∷ []) ∷ []

abbrev begun : ExecuteTask
begun = record { start_num = 1; state = genesis; pending = []; computed = [] }

-- In the second block, the transaction is behind.
execute_task-Achieves_example :
    all (sent packages (pay ∷ pay ∷ [])) (view genesis) ≡ some (view after_pay)
unfolding verify_signature compute_transaction_hash recover_signer public_key_to_address
    sender_state receiver_state execute_kind execute_valid execute_from execute_transaction
    apply_updates execute_next get_account execute_txns update_account_state execute_block
    block_txns seal_block from_verified get_state_root read_txn write_txn execute_ordered
    execute_all execute_round execute_task
execute_task-Achieves_example =
    execute_task-Achieves packages bincode_laws answers (pay ∷ pay ∷ []) begun (tt, (tt, (tt, tt)))
      (omega arith) (pay ∷ [], pay ∷ [], refl, (pay ∷ [], [], refl, refl, refl), refl) (omega arith)
      (omega arith)

-- The first entry comes last.
abbrev rotate : List (Text × Text) → List (Text × Text)
rotate [] = []
rotate (entry ∷ entries) = entries ++ entry ∷ []

abbrev there : Deps
there = iterating rotate packages

-- Alice has two entries in her store.
abbrev stocked : State
stocked = record genesis {
  accounts =
      (
        alice,
        record {
          nonce = 0;
          balance = 1000;
          kv_store = (ascii "a", ascii "1") ∷ (ascii "b", ascii "2") ∷ [];
        },
      )
      ∷ [];
}

abbrev begun_here : ExecuteTask
begun_here = record begun { state = stocked }

abbrev begun_there : ExecuteTask
begun_there = record begun {
  start_num = 5;
  state = record stocked { state_root = record { bytes = replicate 32 7 } };
}

abbrev block_there : ExternalBlock there
block_there = record {
  block_id = [];
  block_number = 5;
  usecs = 6;
  txns = record { bytes = write_txn put; sender = alice_account; seq_number = 0; hash = [] } ∷ [];
}

abbrev block_here : ExternalBlock packages
block_here = record {
  block_id = [];
  block_number = 1;
  usecs = 6;
  txns = record { bytes = write_txn put; sender = alice_account; seq_number = 0; hash = [] } ∷ [];
}

replicas_agree_example :
    (done' : ExecuteTask) × (execute_task there (err [] ∷ ok (block_there ∷ []) ∷ []) begun_there
      ≡ (ok tt, done'))
    × (view (execute_task packages (ok (block_here ∷ []) ∷ []) begun_here).1.state
        ≡ view done'.state)
unfolding verify_signature compute_transaction_hash recover_signer public_key_to_address
    sender_state receiver_state execute_kind execute_valid execute_from execute_transaction
    apply_updates execute_next get_account execute_txns update_account_state execute_block
    block_txns seal_block from_verified get_state_root read_txn write_txn execute_ordered
    execute_all execute_round execute_task
replicas_agree_example =
    replicas_agree packages bincode_laws rotate (ok (block_here ∷ []) ∷ [])
      (err [] ∷ ok (block_there ∷ []) ∷ []) (put ∷ []) begun_here begun_there
      (execute_task packages (ok (block_here ∷ []) ∷ []) begun_here).1 (omega arith)
      ((tt, tt), omega arith, (put ∷ [], [], refl, refl, refl), omega arith)
      ((tt, (tt, tt)), omega arith, (put ∷ [], [], refl, refl, refl), omega arith) refl refl

-- Bob sets the key too.
abbrev bob_puts : TransactionWithAccount
bob_puts = record {
  txn = record {
    unsigned = record { nonce = 0; kind = set_kv (ascii "k") (ascii "w") };
    signature = encode (replicate 64 0 ++ 27 ∷ []);
  };
  address = bob;
}

execute_txns-Reorders_example :
    let (result, done) = execute_txns packages (put ∷ bob_puts ∷ []) stocked in
    (done' : State) × (rs' : List TransactionReceipt) × (execute_txns packages
        (bob_puts ∷ put ∷ [])
        stocked
      ≡ (ok rs', done'))
    × (view done ≡ view done')
unfolding verify_signature compute_transaction_hash recover_signer public_key_to_address
    sender_state receiver_state execute_kind execute_valid execute_from execute_transaction
    apply_updates execute_next get_account execute_txns update_account_state
execute_txns-Reorders_example =
    execute_txns-Reorders packages bincode_laws (put ∷ bob_puts ∷ []) (bob_puts ∷ put ∷ []) stocked
      (execute_txns packages (put ∷ bob_puts ∷ []) stocked).1
      (swap put bob_puts alice bob [] refl refl
        (λ e. omega (arith, ap (λ (t : Text). get_or t 39 0) e)) tt tt)
      (omega arith) (omega arith) refl
