-- ===== src/Main/Serves.antt =====
-- What is sent to the server of main.rs is in the pool of its consensus engine.
use gravity_kvstore.Prelude.{◌+◌, ◌<◌, ◌≡◌, refl, Text, Bytes, some, ok, u64_mod, ascii, true, Bool}
use gravity_kvstore.Types.{UnsignedTransaction}
use gravity_kvstore.Types.Deps.{Deps, HexLaws, KeccakLaws, BincodeLaws, SecpLaws}
use gravity_kvstore.Crypto.{SignatureError, sign_transaction, public_key_to_address}
use gravity_kvstore.Storage.{Storage}
use gravity_kvstore.Storage.Sled.{Sled}
use gravity_kvstore.Mempool
use gravity_kvstore.Mempool.{Pool}
use gravity_kvstore.Mempool.WellFormed.{IsWellFormed}
use gravity_kvstore.Mempool.Holds.{Holds}
use gravity_kvstore.Memory.{Memory, Handles, at, load, save, at-write, load-ok}
use gravity_kvstore.Server.{Context}
use gravity_kvstore.Server.Submit.{account_of}
use gravity_kvstore.Server.App.{Web, added, serve, serve_at}
use gravity_kvstore.Server.Accepts.{serve-Holds}
use gravity_kvstore.Executor.Node.{context_of}
use gravity_kvstore.Main.Config.{Gravity}
use gravity_kvstore.Main.{Cli, Outside, Started, main}
use gravity_kvstore.Main.Sound.{main-starts}

serve_at-eq :
    (d : Deps) {S Value : Type 0} (storage : Storage S) (web : Web Value) (h : Handles)
    (is_post : Bool) (path : Text) (body : Bytes) (c : Context S) (memory : Memory S)
    → load {E = Unit {0}} h memory ≡ ok c
    → serve_at d storage web h is_post path body memory
      ≡ (let (reply, c') = serve d storage web is_post path body c in (reply, save h c' memory))
unfolding serve_at
serve_at-eq d storage web h is_post path body c memory e = rw e refl

new-IsWellFormed : IsWellFormed Mempool.new
unfolding Mempool.new
new-IsWellFormed = tt

module _ (d : Deps) (g : Gravity) (sled : Sled) (outside : Outside sled) where
  -- With packages that keep their laws: `main` has started the node, a transaction has been signed
  -- with a key, its nonce is not the last `u64`, and a body reads as it. The body posted to
  -- /add_txn of the server that has started is answered with success and the transaction's hash,
  -- and then the pool of the consensus engine, which is that of the commit task, holds the
  -- transaction under the account of the key and its nonce.
  pub main-serves :
      (hex : HexLaws d) (sha : KeccakLaws d) (bincode : BincodeLaws d) (secp : SecpLaws d)
      {Value : Type 0} (storage : Storage sled.Db) (web : Web Value) (cli : Cli)
      {started : Started d g sled outside} (tx : UnsignedTransaction) (signature : Text)
      (key : d.SecretKey) (body : Bytes)
      → main d g sled outside cli ≡ ok started
      → sign_transaction d {E = SignatureError} tx key ≡ ok signature
      → web.json_transaction body ≡ some (record { unsigned = tx; signature = signature })
      → tx.nonce + 1 < u64_mod
      → let public_key = d.public_key_from_secret_key key in
        let (reply, memory) =
          serve_at d storage web started.server true (ascii "/add_txn") body started.memory in
        (reply
          ≡ ok (
              added (record {
                status = ascii "success";
                txn_hash = d.hex_encode (d.keccak (bincode.encoded tx));
              })))
        × ((pool : Pool) × (at started.engine_pool memory.pools ≡ some pool)
            × (at started.commit_task.pool memory.pools ≡ some pool)
            × Holds
                (account_of d hex sha bincode public_key)
                (record {
                  txn = record { unsigned = tx; signature = signature };
                  address = public_key_to_address d public_key;
                })
                pool)
  main-serves hex sha bincode secp storage web cli {started} tx signature key body h signs reads
        fits =
      let (node, there, _, _, _, _, _, fresh, (server, _, engine, _), _, _, _) =
        main-starts d g sled outside cli h in
      let c = context_of node in
      let shared : Handles = record {
        state = started.execute_task.state;
        store = started.commit_task.store;
        mempool = started.commit_task.pool;
      } in
      let (_, c') = serve d storage web true (ascii "/add_txn") body c in
      let (answer, holds, _, _) =
        serve-Holds d storage web hex sha bincode secp tx signature key body c signs reads
          (rw fresh new-IsWellFormed) fits in
      let run =
        serve_at-eq d storage web shared true (ascii "/add_txn") body c started.memory
          (load-ok shared c started.memory there.0 there.2 there.3) in
      let put = at-write shared.mempool node.pool c'.mempool started.memory.pools there.3 in
      rw (server, engine, run) (answer, (c'.mempool, put, put, holds))
