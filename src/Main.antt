-- ===== src/Main.antt =====
-- main.rs and cli.rs: how the node is put together from the command line. The parts share the
-- state, the store and the pool by `Arc`, each by its address. Of the tasks it is modelled with what
-- each starts; how tokio schedules them is not.
pub mod Config
pub mod Sound
pub mod Serves
use gravity_kvstore.Prelude.{ℕ, Text, Bytes, Option, Outcome, ok, unwrap, map_err, ◌>>=◌, ascii}
use gravity_kvstore.Dict.{Dict}
use gravity_kvstore.Types.{AccountState}
use gravity_kvstore.Types.Deps.{Deps}
use gravity_kvstore.Storage.{Storage}
use gravity_kvstore.Storage.Sled
use gravity_kvstore.Storage.Sled.{Sled, SledStorage}
use gravity_kvstore.Mempool
use gravity_kvstore.Memory.{Memory, Handles, arc, nothing}
use gravity_kvstore.Executor.Pipeline.{ExecuteCall, CommitCall}
use gravity_kvstore.Blockchain
use gravity_kvstore.Blockchain.{Blockchain}
use gravity_kvstore.Server.App
use gravity_kvstore.Shell.Loop
use gravity_kvstore.Shell.Loop.{Handle}
use gravity_kvstore.Main.Config.{Gravity, OnChainConfig, fetch_config_bytes}

-- gravity_sdk's `GravityNodeArgs`
pub record GravityNodeArgs : Type 0 where
  pub node_config_path : Text

-- The arguments, as clap has parsed them.
pub record Cli : Type 0 where
  pub gravity_node_config : GravityNodeArgs
  pub log_dir : Text
  pub genesis_path : Option Text
  pub listen_url : Text
  pub db_dir : Text

-- What `main` calls outside: the file system, sled and gravity_sdk.
pub record Outside (sled : Sled) : Type 1 where
  pub NodeConfig : Type 0
  pub path_join : Text → Text → Text
  pub file_create : Text → Outcome Text (Unit {0})
  pub check_bootstrap_config : Text → NodeConfig
  pub sled_open : Text → Outcome Text sled.Db
  pub read_genesis : Text → Outcome Text (Dict Text AccountState)

-- `ConsensusEngineArgs`; `fetch` is what `KvOnChainConfig` answers.
pub record ConsensusEngineArgs (NodeConfig Res : Type 0) : Type 0 where
  pub node_config : NodeConfig
  pub chain_id : ℕ
  pub latest_block_number : ℕ
  pub fetch : OnChainConfig → ℕ → Outcome (Unit {0}) (Option Res)

module _ (d : Deps) (g : Gravity) (sled : Sled) (outside : Outside sled) where
  -- What `main` has started when it waits: the server with its address, the shell, the consensus
  -- engine with its pool, and the two tasks of the chain; and the memory with what they share.
  pub record Started : Type 0 where
    pub listen_url : Text
    pub server : Handles
    pub shell : Handle d
    pub engine : ConsensusEngineArgs outside.NodeConfig g.ConfigRes
    pub engine_pool : ℕ
    pub execute_task : ExecuteCall
    pub commit_task : CommitCall
    pub memory : Memory sled.Db

  -- The parts, once the chain is made and its tasks are spawned with the pool.
  unfoldable pub assemble :
      Cli → ℕ → Blockchain → ℕ → ExecuteCall × CommitCall → Memory sled.Db → Started
  unfolding App.new Loop.new
  assemble cli storage blockchain mempool (execute_task, commit_task) memory =
      let state = blockchain.state in
      record {
        listen_url = cli.listen_url;
        server = App.new state storage mempool;
        shell = Loop.new d state storage mempool;
        engine = record {
          node_config = outside.check_bootstrap_config cli.gravity_node_config.node_config_path;
          chain_id = 1337;
          latest_block_number = 0;
          fetch = λ name number. fetch_config_bytes d g name number;
        };
        engine_pool = mempool;
        execute_task = execute_task;
        commit_task = commit_task;
        memory = memory;
      }

  -- From the chain on.
  unfoldable pub start_parts : Cli → ℕ → Blockchain → Memory sled.Db → Outcome Text Started
  start_parts cli storage blockchain memory = do
    let (mempool, pools) = arc Mempool.new memory.pools
    (tasks, memory') ← Blockchain.run d mempool blockchain (record memory { pools = pools })
    ok (assemble cli storage blockchain mempool tasks memory')

  -- Up to where it waits for the shell, the tasks and CTRL-C.
  unfoldable pub main : Cli → Outcome Text Started
  main cli = do
    _ ← unwrap (outside.file_create (outside.path_join cli.log_dir (ascii "kv.log")))
    opened ← Sled.new sled outside.sled_open cli.db_dir
    let (storage, stores) = arc opened.db nothing.stores
    (blockchain, memory) ←
        Blockchain.new outside.read_genesis storage cli.genesis_path
          (record nothing { stores = stores })
    start_parts cli storage blockchain memory
