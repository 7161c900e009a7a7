-- ===== src/Main/Sound.antt =====
-- The node that main.rs starts, and what it can come to.
use gravity_kvstore.Prelude.{
  ℕ, ◌<◌, ◌≡◌, refl, Text, Option, none, some, [], ◌∷◌, ap, some-injective, ok, arith, u64_mod,
  >>=-eq-ok, ok-inj, ◌>>=◌, unwrap, ascii, subst, sym, ◌∙◌,
}
use gravity_kvstore.Types.Deps.{Deps, KeccakLaws, BincodeLaws}
use gravity_kvstore.State
use gravity_kvstore.State.{State, default_root, get_state_root, get_current_block_number}
use gravity_kvstore.Storage.{Storage, IsStorage}
use gravity_kvstore.Storage.Sled
use gravity_kvstore.Storage.Sled.{Sled, SledStorage}
use gravity_kvstore.Mempool
use gravity_kvstore.Blockchain
use gravity_kvstore.Blockchain.{Blockchain, start_block}
use gravity_kvstore.Executor.Pipeline
use gravity_kvstore.Memory.{Memory, Handles, at, nothing}
use gravity_kvstore.Executor.Pipeline.{ExecuteCall, CommitCall}
use gravity_kvstore.Executor.Node.{Node, IsSound, Agrees, Run}
use gravity_kvstore.Executor.Node.Sound.{Run-IsSound}
use gravity_kvstore.Executor.Node.Number.{Run-number}
use gravity_kvstore.Server.App
use gravity_kvstore.Shell.Loop
use gravity_kvstore.Main.Config.{Gravity}
use gravity_kvstore.Main.{Cli, Outside, Started, assemble, start_parts, main}

module _ (d : Deps) (g : Gravity) (sled : Sled) (outside : Outside sled) where
  -- The node of what has started: its state, blocks that wait, store and pool are at the addresses
  -- that the two tasks have.
  abbrev pub IsAt : Started d g sled outside → Memory sled.Db → Node sled.Db → Type 0
  IsAt started memory node =
      (at started.execute_task.state memory.states ≡ some node.state)
      × (at started.execute_task.pending memory.pendings ≡ some node.pending)
      × (at started.commit_task.store memory.stores ≡ some node.store)
      × (at started.commit_task.pool memory.pools ≡ some node.pool)

  -- The parts have one state, one store, one pool and one map of blocks that wait.
  abbrev pub AreShared : Started d g sled outside → Type 0
  AreShared started =
      let shared : Handles = record {
        state = started.execute_task.state;
        store = started.commit_task.store;
        mempool = started.commit_task.pool;
      } in
      (started.server ≡ shared)
      × (started.shell ≡ record { context = shared; keypair = none })
      × (started.engine_pool ≡ shared.mempool)
      × (started.commit_task.pending ≡ started.execute_task.pending)

  new-fresh :
      {E : Type 0} (path : Option Text) {s : State}
      → State.new {E = E} outside.read_genesis path ≡ ok s
      → (get_current_block_number s ≡ 0) × (get_state_root s ≡ default_root)
  unfolding State.new get_current_block_number get_state_root
  new-fresh none h = ground arith
  new-fresh (some path) h = ground arith

  opens :
      (cli : Cli) (storage : SledStorage sled)
      → Sled.new sled outside.sled_open cli.db_dir ≡ ok storage
      → outside.sled_open cli.db_dir ≡ ok storage.db
  unfolding Sled.new
  opens cli storage h = ground arith

  -- What holds of what has started.
  abbrev pub HasStarted : Cli → Started d g sled outside → Type 0
  HasStarted cli started =
      (node : Node sled.Db) × IsAt started started.memory node
      × (outside.sled_open cli.db_dir ≡ ok node.store)
      × (State.new {E = Text} outside.read_genesis cli.genesis_path ≡ ok node.state)
      × (get_current_block_number node.state ≡ 0)
      × (get_state_root node.state ≡ default_root)
      × (node.pending ≡ [])
      × (node.pool ≡ Mempool.new)
      × AreShared started
      × (started.execute_task.start_num ≡ 1)
      × (started.commit_task.start_num ≡ 1)
      × (started.engine.latest_block_number ≡ 0)

  -- What `main` starts from this store and this state.
  abbrev started_from : Cli → sled.Db → State → Started d g sled outside
  started_from cli db state =
      assemble d g sled outside cli 0 (record { state = 0; storage = 0 }) 0
        (
          record { start_num = 1; state = 0; pending = 0 },
          record { start_num = 1; store = 0; pending = 0; pool = 0 },
        )
        (record {
          states = state ∷ [];
          stores = db ∷ [];
          pools = Mempool.new ∷ [];
          pendings = [] ∷ [];
        })

  start_parts-ok :
      (cli : Cli) (db : sled.Db) (state : State)
      → get_current_block_number state ≡ 0
      → start_parts d g sled outside cli 0
          (record { state = 0; storage = 0 })
          (record nothing { states = state ∷ []; stores = db ∷ [] })
        ≡ ok (started_from cli db state)
  unfolding start_parts Blockchain.run start_block Pipeline.run
  start_parts-ok cli db state zero = ground arith

  makes :
      (path : Option Text) (memory : Memory sled.Db) (p : Blockchain × Memory sled.Db)
      → memory.states ≡ []
      → Blockchain.new {E = Text} outside.read_genesis 0 path memory ≡ ok p
      → (state : State) × (State.new {E = Text} outside.read_genesis path ≡ ok state)
        × (p ≡ (record { state = 0; storage = 0 }, record memory { states = state ∷ [] }))
  unfolding Blockchain.new
  makes path memory p none_yet h =
      let (state, made, rest) = >>=-eq-ok (State.new {E = Text} outside.read_genesis path) _ h in
      (state, made, sym (ok-inj rest) ∙ rw none_yet refl)

  main-eq-ok :
      (cli : Cli) {started : Started d g sled outside}
      → main d g sled outside cli ≡ ok started
      → (storage : SledStorage sled) × (state : State) × (Sled.new sled outside.sled_open cli.db_dir
          ≡ ok storage)
        × (State.new {E = Text} outside.read_genesis cli.genesis_path ≡ ok state)
        × (started_from cli storage.db state ≡ started)
  unfolding main
  main-eq-ok cli {started} h =
      let parts = λ (p : Blockchain × Memory sled.Db). start_parts d g sled outside cli 0 p.0 p.1 in
      let memory = λ (storage : SledStorage sled). record nothing { stores = storage.db ∷ [] } in
      let make = λ (storage : SledStorage sled).
        Blockchain.new {E = Text} outside.read_genesis 0 cli.genesis_path (memory storage)
        >>= parts in
      let (_, _, h₁) =
        >>=-eq-ok
          (unwrap {F = Text} (outside.file_create (outside.path_join cli.log_dir (ascii "kv.log"))))
          (λ _. Sled.new sled outside.sled_open cli.db_dir >>= make) h in
      let (storage, opened, h₂) = >>=-eq-ok (Sled.new sled outside.sled_open cli.db_dir) make h₁ in
      let (p, made, h₃) =
        >>=-eq-ok
          (Blockchain.new {E = Text} outside.read_genesis 0 cli.genesis_path (memory storage)) parts
          h₂ in
      let (state, fresh, same) = makes cli.genesis_path (memory storage) p refl made in
      let built = start_parts-ok cli storage.db state (new-fresh cli.genesis_path fresh).0 in
      (storage, state, opened, fresh, ok-inj (sym built ∙ sym (ap parts same) ∙ h₃))

  -- When `main` starts the node, it has opened the store that it was told to, and read the
  -- genesis: the state is that of the genesis, at block number 0 and with the default root,
  -- whatever the store holds; no block waits, and the pool is new. The parts share these, and the
  -- tasks start at number 1.
  pub main-starts :
      (cli : Cli) {started : Started d g sled outside}
      → main d g sled outside cli ≡ ok started
      → HasStarted cli started
  unfolding assemble App.new Loop.new
  main-starts cli {started} h =
      let (storage, state, opened, made, same) = main-eq-ok cli h in
      let (zero, root) = new-fresh cli.genesis_path made in
      let db = opens cli storage opened in
      subst (HasStarted cli) same (
        record { state = state; pending = []; store = storage.db; pool = Mempool.new },
        (refl, refl, refl, refl),
        db,
        made,
        zero,
        root,
        refl,
        refl,
        (refl, refl, refl, refl),
        refl,
        refl,
        refl,
      )

  -- With digests of 32 bytes and the laws of bincode: a node that `main` has started over a store
  -- that meets its contract, with nothing under a number `m` of the range of `u64` or a block and
  -- its header's root, goes on by steps, of which each may panic. They are requests with a
  -- transaction whose nonce is not the last `u64`, commands of the shell while the next nonce of
  -- every account fits in a `u64`, executions of blocks whose number is in that range, and commits,
  -- in any order. After them its pool is well formed, the blocks that wait are under their numbers
  -- with their roots, under `m` there is nothing or a block with its root, and the block number of
  -- the state is 0.
  pub main-IsSound :
      (sha : KeccakLaws d) (bincode : BincodeLaws d) (storage : Storage sled.Db) (cli : Cli) (m : ℕ)
      {started : Started d g sled outside} {first n : Node sled.Db}
      → IsStorage storage
      → m < u64_mod
      → main d g sled outside cli ≡ ok started
      → IsAt started started.memory first
      → Agrees m (storage.get_block m first.store) (storage.get_state_root m first.store)
      → Run d storage first n
      → IsSound d storage m n × (get_current_block_number n.state ≡ 0)
  unfolding Mempool.new
  main-IsSound sha bincode storage cli m {started} {first} laws hm h found agrees run =
      let (node, there, _, _, zero, _, nothing_waits, fresh, _, _, _, _) = main-starts cli h in
      let state : first.state ≡ node.state = some-injective _ _ (sym found.0 ∙ there.0) in
      let waits : first.pending ≡ node.pending = some-injective _ _ (sym found.1 ∙ there.1) in
      let pool : first.pool ≡ node.pool = some-injective _ _ (sym found.3 ∙ there.3) in
      let sound : IsSound d storage m first =
        (rw (pool, fresh) tt, rw (waits, nothing_waits) tt, agrees) in
      (
        Run-IsSound d sha bincode storage laws m hm run sound,
        Run-number d sha bincode storage laws m hm run sound
            ∙ ap get_current_block_number state
            ∙ zero,
      )
