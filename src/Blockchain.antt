-- ===== src/Blockchain.antt =====
-- state/blockchain.rs.
use gravity_kvstore.Prelude.{ℕ, Text, Option, none, some, Outcome, ok, ◌>>=◌, add_wrap, u64_mod}
use gravity_kvstore.Dict.{Dict}
use gravity_kvstore.Types.{AccountId, AccountState}
use gravity_kvstore.Types.Deps.{Deps}
use gravity_kvstore.Memory.{Memory, arc, deref}
use gravity_kvstore.Executor.Pipeline
use gravity_kvstore.Executor.Pipeline.{ExecuteCall, CommitCall}
use gravity_kvstore.State
use gravity_kvstore.State.{State, get_account, get_current_block_number}

-- The two `Arc`s, by their addresses.
pub record Blockchain : Type 0 where
  pub state : ℕ
  pub storage : ℕ

module _ {S : Type 0} where
  -- `Blockchain::new`; the genesis file is read by `read_genesis`.
  unfoldable pub new :
      {E : Type 0}
      → (Text → Outcome Text (Dict Text AccountState))
      → ℕ
      → Option Text
      → Memory S
      → Outcome E (Blockchain × Memory S)
  new read_genesis storage genesis_path memory = do
    made ← State.new read_genesis genesis_path
    let (state, cells) = arc made memory.states
    ok (record { state = state; storage = storage }, record memory { states = cells })

  -- It returns `Ok` always.
  unfoldable pub get_account_state :
      {E : Type 0} → AccountId → Blockchain → Memory S → Outcome E (Option AccountState)
  unfolding get_account
  get_account_state account_id chain memory = do
    state ← deref chain.state memory.states
    ok (elim (get_account account_id.text state) [
      | some account ↦
          some (record {
            nonce = account.nonce;
            balance = account.balance;
            kv_store = account.kv_store;
          })
      | none ↦ none
    ])

  -- The number from which `run` starts the two tasks.
  unfoldable pub start_block : {E : Type 0} → Deps → Blockchain → Memory S → Outcome E ℕ
  unfolding get_current_block_number
  start_block d chain memory = do
    state ← deref chain.state memory.states
    add_wrap d.overflow_checks u64_mod (get_current_block_number state) 1

  -- `Blockchain::run`
  unfoldable pub run :
      {E : Type 0}
      → Deps
      → ℕ
      → Blockchain
      → Memory S
      → Outcome E ((ExecuteCall × CommitCall) × Memory S)
  unfolding start_block Pipeline.run
  run d pool chain memory = do
    start ← start_block d chain memory
    ok (Pipeline.run start chain.storage chain.state pool memory)
