-- ===== src/Tests/Tasks.antt =====
-- Runs of the tasks of executor/executor.rs.
use gravity_kvstore.Prelude.{
  All, panic, none, bytes_eq, nat_eq, ◌≡◌, refl, arith, some, [], ◌∷◌, ok, err, replicate,
}
use gravity_kvstore.Dict
use gravity_kvstore.Types.{transfer}
use gravity_kvstore.Types.Convert.{account, sequence_number, convert_account, from_verified}
use gravity_kvstore.State.{get_account, get_state_root, update_account_state}
use gravity_kvstore.Crypto.{
  verify_signature, compute_transaction_hash, recover_signer, public_key_to_address,
}
use gravity_kvstore.Executor.{
  ExecuteError, sender_state, receiver_state, execute_kind, execute_valid, execute_from,
  execute_transaction, apply_updates, execute_next,
}
use gravity_kvstore.Executor.Block.{
  execute_txns, block_txns, execute_block, PendingBlock, seal_block,
}
use gravity_kvstore.Executor.Tasks.{CommitTask, persist_block}
use gravity_kvstore.Executor.Commit.{persist_block-stores}
use gravity_kvstore.Storage.{Storage}
use gravity_kvstore.Storage.Sled.{sled_storage}
use gravity_kvstore.Storage.Contract.{sled_storage-IsStorage}
use gravity_kvstore.Mempool.{remove_txn}
use gravity_kvstore.Samples.Packages.{packages, bincode_laws}
use gravity_kvstore.Samples.Wire.{write_txn, read_txn}
use gravity_kvstore.Executor.Tasks.{
  ExecuteTask, execute_ordered, execute_all, execute_round, execute_task,
}
use gravity_kvstore.Executor.Chain.{HasRun, execute_task-chain}
use gravity_kvstore.Executor.Committed.{IsStored, commit_round-stores}
use gravity_kvstore.Executor.Tasks.{commit_round}
use gravity_kvstore.Storage.{IsStorage}
use gravity_kvstore.Executor.Gap.{waiting_txn_panics}
use gravity_kvstore.Executor.Node.{
  Node, IsSound, Run, begin, after, request, execute, commit, requested, executed, committed,
}
use gravity_kvstore.Executor.Node.Sound.{Run-IsSound}
use gravity_kvstore.Mempool.{new, waiting, add_raw_txn, best_txns, raw_txn_key}
use gravity_kvstore.Storage.Sled.{get_block, get_state_root as stored_root, load}
use gravity_kvstore.Samples.Packages.{keccak_laws, json_laws, verified_laws, Verified}
use gravity_kvstore.Samples.Database.{database, database_laws, encodings, encoding_laws}
use gravity_kvstore.Tests.Fixtures.{alice, bob, alice_account, pay, genesis, gap, signed, ordered}

-- The block that waits with one transaction, and no receipt.
abbrev waiting_block : PendingBlock
waiting_block = record {
  root = record { bytes = replicate 32 7 };
  block = record {
    header = record {
      number = 1;
      parent_state_root = replicate 32 0;
      state_root = replicate 32 7;
      usecs = 5;
    };
    transactions = signed 1 (transfer bob 7) ∷ [];
  };
  receipts = [];
}

abbrev commit_start : CommitTask database.Db
commit_start = record { start_num = 1; pending = (1, waiting_block) ∷ []; store = []; pool = gap }

persist_block-stores_example :
    (task' : CommitTask database.Db) × (persist_block packages
        (sled_storage database encodings)
        1
        commit_start
      ≡ (ok tt, task'))
    × ((sled_storage database encodings).get_block 1 task'.store ≡ ok (some waiting_block.block))
    × ((sled_storage database encodings).get_state_root 1 task'.store
        ≡ ok (some waiting_block.root))
    × (task'.pending ≡ [])
    × (task'.pool ≡ remove_txn alice_account 1 gap)
unfolding account convert_account sequence_number
persist_block-stores_example =
    persist_block-stores packages (sled_storage database encodings)
      (sled_storage-IsStorage database encodings database_laws encoding_laws) 1 1 commit_start
      waiting_block refl refl (omega arith) (omega arith) tt ((alice_account, refl), tt)

abbrev execute_start : ExecuteTask
execute_start = record { start_num = 1; state = genesis; pending = []; computed = [] }

-- One round brings a block, the other an error.
execute_task-chain_example :
    let task' = (execute_task packages (ok (ordered ∷ []) ∷ err [] ∷ []) execute_start).1 in
    HasRun packages (ordered ∷ []) execute_start task' × (task'.start_num ≡ 2)
unfolding verify_signature compute_transaction_hash recover_signer public_key_to_address
    sender_state receiver_state execute_kind execute_valid execute_from execute_transaction
    apply_updates execute_next get_account execute_txns update_account_state execute_block
    block_txns seal_block from_verified get_state_root read_txn write_txn execute_ordered
    execute_all execute_round execute_task
execute_task-chain_example =
    execute_task-chain packages (ok (ordered ∷ []) ∷ err [] ∷ []) execute_start
      (execute_task packages (ok (ordered ∷ []) ∷ err [] ∷ []) execute_start).1 (omega arith) refl

waiting_txn_panics_example :
    let t = signed 2 (transfer bob 7) in
    let pool = (add_raw_txn packages {E = ExecuteError} t new).1 in
    (v : Verified) × (Dict.lookup alice_account pool.mempool
      ≡ some ((2, record { raw_txn = t; status = waiting }) ∷ []))
    × (best_txns packages {E = ExecuteError} none pool ≡ ok (v ∷ []))
    × (execute_block packages (record ordered { txns = v ∷ [] }) genesis [] ≡ (panic, genesis, []))
unfolding verify_signature compute_transaction_hash recover_signer public_key_to_address
    sender_state get_account raw_txn_key account convert_account
waiting_txn_panics_example =
    waiting_txn_panics packages json_laws verified_laws (signed 2 (transfer bob 7)) alice
      alice_account
      (packages.keccak (bincode_laws.encoded (signed 2 (transfer bob 7)).txn.unsigned)) ordered
      genesis [] refl refl (omega arith)

abbrev pub start : Node database.Db
start = record { state = genesis; pending = []; store = []; pool = new }

abbrev pub kv : Storage database.Db
kv = sled_storage database encodings

abbrev three_steps : Node database.Db
three_steps =
    committed packages kv 1 1 (executed packages kv ordered (requested packages kv pay.txn start))

three_steps_run : Run packages kv start three_steps
three_steps_run =
    after
      (after (after begin (request start pay.txn (omega arith)))
        (execute (requested packages kv pay.txn start) ordered (omega arith)))
      (commit (executed packages kv ordered (requested packages kv pay.txn start)) 1 1)

pub start-IsSound : IsSound packages kv 1 start
unfolding sled_storage get_block stored_root load new
start-IsSound = (tt, tt, tt)

Run-IsSound_example : IsSound packages kv 1 three_steps
Run-IsSound_example =
    Run-IsSound packages keccak_laws bincode_laws kv
      (sled_storage-IsStorage database encodings database_laws encoding_laws) 1 (omega arith)
      three_steps_run start-IsSound

pub kv-IsStorage : IsStorage kv
kv-IsStorage = sled_storage-IsStorage database encodings database_laws encoding_laws

commit_round-stores_example :
    (task' : CommitTask database.Db) × (commit_round packages kv (ok (1 ∷ [])) commit_start
      ≡ (ok tt, task'))
    × All (IsStored packages kv kv-IsStorage task'.store) (waiting_block ∷ [])
    × (task'.pending ≡ [])
    × (task'.start_num ≡ 2)
unfolding account convert_account
commit_round-stores_example =
    commit_round-stores packages kv kv-IsStorage (waiting_block ∷ []) commit_start
      ((refl, omega arith, tt, ((alice_account, refl), tt)), tt) (tt, tt) (omega arith)
