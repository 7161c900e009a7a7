-- ===== src/Tests/Main.antt =====
-- A start of the node of main.rs.
use gravity_kvstore.Prelude.{
  ◌≡◌, refl, arith, Text, Bytes, bytes_eq, nat_eq, none, some, [], ◌∷◌, ◌++◌, ok, ascii,
}
use gravity_kvstore.State.{new, get_current_block_number}
use gravity_kvstore.State.Encoding.{u64_le}
use gravity_kvstore.Storage.Sled
use gravity_kvstore.Storage.Sled.{Sled, sled_storage, get_block, get_state_root, load}
use gravity_kvstore.Mempool
use gravity_kvstore.Blockchain
use gravity_kvstore.Blockchain.{start_block}
use gravity_kvstore.Executor.Node.{IsSound, Run, begin, after, execute, executed}
use gravity_kvstore.Main.Config.{Gravity, epoch, other, the_validator_set, fetch_config_bytes}
use gravity_kvstore.Main.{Outside, Cli, Started, assemble, start_parts, main}
use gravity_kvstore.Main.Sound.{main-IsSound}
use gravity_kvstore.Main.Serves.{main-serves}
use gravity_kvstore.Prelude.{true}
use gravity_kvstore.Memory.{at}
use gravity_kvstore.Mempool.{Pool}
use gravity_kvstore.Mempool.Holds.{Holds}
use gravity_kvstore.Crypto.{sign_transaction, compute_transaction_hash, public_key_to_address}
use gravity_kvstore.Server.Submit.{account_of}
use gravity_kvstore.Server.App.{added, serve_at}
use gravity_kvstore.Samples.Wire.{write_txn, read_txn}
use gravity_kvstore.Samples.Packages.{hex_laws, secp_laws}
use gravity_kvstore.Tests.Fixtures.{put}
use gravity_kvstore.Tests.Requests.{web}
use gravity_kvstore.Tests.Tasks.{start}
use gravity_kvstore.Samples.Database.{database}
use gravity_kvstore.Samples.Packages.{packages, keccak_laws, bincode_laws}
use gravity_kvstore.Tests.Fixtures.{genesis, ordered}
use gravity_kvstore.Tests.Tasks.{kv, kv-IsStorage}

abbrev gravity : Gravity
gravity = record {
  AccountAddress = Bytes;
  ValidatorInfo = Bytes;
  ConfigRes = Bytes;
  address_from_bytes = λ b. b;
  validator_info_new = λ a power config. a;
  config_res_from = λ b. b;
  bcs_text = λ t. ok t;
  bcs_validator_set = λ set. ok (ascii "set");
}

-- The genesis file has the accounts of the test state; the database is new.
abbrev outside : Outside database
outside = record {
  NodeConfig = Text;
  path_join = λ a b. a ++ b;
  file_create = λ path. ok tt;
  check_bootstrap_config = λ path. path;
  sled_open = λ path. ok [];
  read_genesis = λ path. ok genesis.accounts;
}

abbrev cli : Cli
cli = record {
  gravity_node_config = record { node_config_path = ascii "node.yaml" };
  log_dir = ascii "/tmp/";
  genesis_path = some (ascii "genesis.json");
  listen_url = ascii "127.0.0.1:9006";
  db_dir = ascii "db";
}

abbrev started : Started packages gravity database outside
started =
    assemble packages gravity database outside cli 0 (record { state = 0; storage = 0 }) 0
      (
        record { start_num = 1; state = 0; pending = 0 },
        record { start_num = 1; store = 0; pending = 0; pool = 0 },
      )
      (record {
        states = genesis ∷ [];
        stores = [] ∷ [];
        pools = Mempool.new ∷ [];
        pendings = [] ∷ [];
      })

started_ok : main packages gravity database outside cli ≡ ok started
unfolding main start_parts Sled.new Blockchain.new new Blockchain.run
started_ok = refl

after_block : Run packages kv start (executed packages kv ordered start)
after_block = after begin (execute _ ordered (omega arith))

main-IsSound_example :
    let n = executed packages kv ordered start in
    IsSound packages kv 1 n × (get_current_block_number n.state ≡ 0)
unfolding sled_storage get_block load assemble get_state_root
main-IsSound_example =
    main-IsSound packages gravity database outside keccak_laws bincode_laws kv cli 1 kv-IsStorage
      (omega arith) started_ok (refl, refl, refl, refl) tt after_block

main-serves_example :
    let (reply, memory) =
      serve_at packages kv web started.server true
        (ascii "/add_txn")
        (write_txn put)
        started.memory in
    (reply
      ≡ ok (
          added (record {
            status = ascii "success";
            txn_hash =
                packages.hex_encode (packages.keccak (bincode_laws.encoded put.txn.unsigned));
          })))
    × ((pool : Pool) × (at started.engine_pool memory.pools ≡ some pool)
        × (at started.commit_task.pool memory.pools ≡ some pool)
        × Holds
            (account_of packages hex_laws keccak_laws bincode_laws true)
            (record { txn = put.txn; address = public_key_to_address packages true })
            pool)
unfolding read_txn write_txn sign_transaction compute_transaction_hash
main-serves_example =
    main-serves packages gravity database outside hex_laws keccak_laws bincode_laws secp_laws kv web
      cli put.txn.unsigned put.txn.signature true (write_txn put) started_ok refl refl (omega arith)

-- The epoch is 1, in little-endian order; other names have no configuration.
epoch_bytes :
    fetch_config_bytes packages gravity {E = ⊥} epoch 7
    ≡ ok (some (1 ∷ 0 ∷ 0 ∷ 0 ∷ 0 ∷ 0 ∷ 0 ∷ 0 ∷ []))
unfolding fetch_config_bytes the_validator_set u64_le
epoch_bytes = refl

no_other : fetch_config_bytes packages gravity {E = ⊥} other 7 ≡ ok none
unfolding fetch_config_bytes the_validator_set
no_other = refl
