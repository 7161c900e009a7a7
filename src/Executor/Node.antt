-- ===== src/Executor/Node.antt =====
-- The node as a whole: requests to the server, commands of the shell, executions and commits, in
-- any order, over the state, the blocks that wait, the store and the pool that
-- executor/executor.rs, app/server.rs and app/shell.rs share.
pub mod Keeps
pub mod Sound
pub mod Number
pub mod Single
pub mod Lifecycle
use gravity_kvstore.Prelude.{
  ℕ, ◌+◌, ◌<◌, ◌≡◌, refl, sym, subst, ◌∙◌, ◌⊎◌, inl, inr, Text, Bytes, bytes_eq, nat_eq, Option,
  none, some, List, [], ◌∷◌, Outcome, ok, err, panic, continue, continue-keeps, All, u64_mod, arith,
  length, ◌==◌, if◌then◌else◌, Option-cases, Outcome-cases, eq_or_ne,
}
use gravity_kvstore.Dict
use gravity_kvstore.Dict.Entries.{All-lookup, All-insert, All-remove}
use gravity_kvstore.Types.{
  Block, StateRoot, Transaction, TransactionReceipt, TransactionWithAccount,
}
use gravity_kvstore.Types.Deps.{Deps, KeccakLaws, BincodeLaws}
use gravity_kvstore.Types.Convert.{account, sequence_number}
use gravity_kvstore.State.{State, get_state_root}
use gravity_kvstore.Storage.{Storage, StorageError, IsStorage, HasHash}
use gravity_kvstore.Crypto.{KeyPair}
use gravity_kvstore.Server.{Context, add_txn}
use gravity_kvstore.Shell.{Shell, handle_command}
use gravity_kvstore.Shell.Keeps.{HasNonces}
use gravity_kvstore.Mempool.{Pool, add_raw_txn, remove_txn}
use gravity_kvstore.Mempool.WellFormed.{
  IsWellFormed, add_raw_txn-IsWellFormed, remove_txn-IsWellFormed,
}
use gravity_kvstore.Executor.{ExecuteError}
use gravity_kvstore.Executor.Block.{
  ExternalBlock, Pending, PendingBlock, execute_block, seal_block, execute_txns, block_txns,
}
use gravity_kvstore.Executor.Tasks.{CommitTask, remove_txns, persist_pending, persist_block}
use gravity_kvstore.Executor.Commit.{stored, get_block-stored, get_state_root-stored}
use gravity_kvstore.Executor.Seal.{execute_block-seals}
use gravity_kvstore.Executor.Receipts.{execute_txns-HasHash}

pub record Node (S : Type 0) : Type 0 where
  pub state : State
  pub pending : Pending
  pub store : S
  pub pool : Pool

-- What the server and the shell have of the node.
abbrev pub context_of : {S : Type 0} → Node S → Context S
context_of n = record { state = n.state; store = n.store; mempool = n.pool }

abbrev pub put_back : {S : Type 0} → Context S → Node S → Node S
put_back c n = record n { state = c.state; store = c.store; pool = c.mempool }

-- A block that waits under a number is the block of that number, its header has the root that is
-- to be stored, and its receipts can be stored.
abbrev pub IsKept : ℕ × PendingBlock → Type 0
IsKept (n, e) =
    (e.block.header.number ≡ n)
    × (n < u64_mod)
    × (e.root.bytes ≡ e.block.header.state_root)
    × All HasHash e.receipts

-- What is stored under a number: nothing, or the block of that number and the root in its header.
abbrev pub Agrees :
    ℕ → Outcome StorageError (Option Block) → Outcome StorageError (Option StateRoot) → Type 0
Agrees n (ok none) (ok none) = Unit
Agrees n (ok (some b)) (ok (some r)) = (b.header.number ≡ n) × (r.bytes ≡ b.header.state_root)
Agrees n _ _ = ⊥

module _ (d : Deps) {S : Type 0} (storage : Storage S) where
  -- A transaction that is sent to the server.
  abbrev pub requested : Transaction → Node S → Node S
  requested t n = put_back (add_txn d t (context_of n)).1 n

  -- A command of the shell, whoever its user is.
  abbrev pub commanded : Option (KeyPair d) → List Text → Node S → Node S
  commanded keypair args n =
      let shell : Shell d S = record { context = context_of n; keypair = keypair } in
      put_back (handle_command d storage args shell).1.context n

  abbrev pub executed : ExternalBlock d → Node S → Node S
  executed b n =
      let (_, state, pending) = execute_block d b n.state n.pending in
      record n { state = state; pending = pending }

  abbrev pub committed : ℕ → ℕ → Node S → Node S
  committed start k n =
      let task : CommitTask S = record {
        start_num = start;
        pending = n.pending;
        store = n.store;
        pool = n.pool;
      } in
      let (_, task') = persist_block d storage k task in
      record n { pending = task'.pending; store = task'.store; pool = task'.pool }

  -- One of the four, whether it goes through or panics.
  pub data Step : Node S → Node S → Type 0 where
    request :
        (n : Node S) (t : Transaction) → t.unsigned.nonce + 1 < u64_mod → Step n (requested t n)
    command :
        (n : Node S) (keypair : Option (KeyPair d)) (args : List Text)
        → HasNonces n.state
        → Step n (commanded keypair args n)
    execute : (n : Node S) (b : ExternalBlock d) → b.block_number < u64_mod → Step n (executed b n)
    commit : (n : Node S) (start k : ℕ) → Step n (committed start k n)

  pub data Run (first : Node S) : Node S → Type 0 where
    begin : Run first first
    after : {n m : Node S} → Run first n → Step n m → Run first m

  -- The node at a number `m` of the store.
  abbrev pub IsSound : ℕ → Node S → Type 0
  IsSound m n =
      IsWellFormed n.pool
      × All IsKept n.pending
      × Agrees m (storage.get_block m n.store) (storage.get_state_root m n.store)
