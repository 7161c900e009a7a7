-- ===== src/Executor/Gap.antt =====
-- A transaction ahead of its sender's nonce, from txpool/mempool.rs to executor/executor.rs.
use gravity_kvstore.Prelude.{
  ℕ, ◌<◌, ◌≡◌, Text, Bytes, bytes_eq, bytes_beq_refl, [], ◌∷◌, some, none, ok, panic, arith,
}
use gravity_kvstore.Dict.{lookup}
use gravity_kvstore.Types.{TransactionWithAccount}
use gravity_kvstore.Types.Deps.{Deps, JsonLaws, VerifiedLaws}
use gravity_kvstore.Types.Convert.{sequence_number, into_verified, from_verified}
use gravity_kvstore.Types.RoundTrip.{from_verified-into_verified}
use gravity_kvstore.Crypto.{verify_signature}
use gravity_kvstore.State.{State}
use gravity_kvstore.Mempool.{
  Pool, MempoolTxn, waiting, new, promote, put_txn, process_txn, add_txn, add_raw_txn,
  best_of_account, best_of_all, best_txns, raw_txn_key,
}
use gravity_kvstore.Mempool.Verified.{account-raw_txn_key}
use gravity_kvstore.Executor.{ExecuteError, sender_state, execute_from, execute_next}
use gravity_kvstore.Executor.Block.{
  ExternalBlock, Pending, block_txns, execute_txns, seal_block, execute_block,
}
use gravity_kvstore.Executor.Effects.{execute_transaction-eq-from}

module _ (d : Deps) where
  -- A round over a transaction that is ahead panics, and writes nothing.
  pub execute_next-ahead :
      (t : TransactionWithAccount) (sender : Text) (s : State)
      → verify_signature d t.txn ≡ ok sender
      → (sender_state sender s).nonce < t.txn.unsigned.nonce
      → execute_next d t s ≡ (panic, s)
  unfolding execute_next execute_from
  execute_next-ahead t sender s v ahead =
      ground (arith, execute_transaction-eq-from d t.txn sender s v)

  add_raw_txn-new :
      (E : Type 0) (t : TransactionWithAccount) (a hash : Bytes)
      → raw_txn_key d {E = E} t ≡ ok (a, hash)
      → 0 < sequence_number t
      → (add_raw_txn d {E = E} t new).1 ≡ record {
        water_mark = (a, 0) ∷ [];
        mempool = (a, (sequence_number t, record { raw_txn = t; status = waiting }) ∷ []) ∷ [];
      }
  unfolding add_raw_txn new add_txn put_txn process_txn promote
  add_raw_txn-new E t a hash key positive = ground (arith, bytes_beq_refl a)

  best_txns-single :
      (E : Type 0) (pool : Pool) (a : Bytes) (n : ℕ) (entry : MempoolTxn) (v : d.VerifiedTxn)
      → pool.mempool ≡ (a, (n, entry) ∷ []) ∷ []
      → into_verified d {E = E} entry.raw_txn ≡ ok v
      → best_txns d {E = E} none pool ≡ ok (v ∷ [])
  unfolding best_txns best_of_all best_of_account
  best_txns-single E pool a n entry v single into = rw (single, into)

  execute_block-panics :
      (b : ExternalBlock d) (t : TransactionWithAccount) (v : d.VerifiedTxn) (s : State)
      (p : Pending)
      → from_verified d {E = ExecuteError} v ≡ ok t
      → execute_next d t s ≡ (panic, s)
      → execute_block d (record b { txns = v ∷ [] }) s p ≡ (panic, s, p)
  unfolding execute_block block_txns execute_txns seal_block
  execute_block-panics b t v s p back fails = ground arith

  module _ (json : JsonLaws d) (verified : VerifiedLaws d) where
    -- With packages that keep their laws, a signed transaction ahead of its sender's nonce, whose
    -- address converts and which can be hashed, put alone into a new pool, waits there, and is
    -- handed out all the same; the execution of a block with it panics, with nothing written and
    -- no block put to wait.
    pub waiting_txn_panics :
        (t : TransactionWithAccount) (sender : Text) (a hash : Bytes) (b : ExternalBlock d)
        (s : State) (p : Pending)
        → raw_txn_key d {E = ExecuteError} t ≡ ok (a, hash)
        → verify_signature d t.txn ≡ ok sender
        → (sender_state sender s).nonce < t.txn.unsigned.nonce
        → let pool = (add_raw_txn d {E = ExecuteError} t new).1 in
          (v : d.VerifiedTxn) × (lookup a pool.mempool
            ≡ some ((t.txn.unsigned.nonce, record { raw_txn = t; status = waiting }) ∷ []))
          × (best_txns d {E = ExecuteError} none pool ≡ ok (v ∷ []))
          × (execute_block d (record b { txns = v ∷ [] }) s p ≡ (panic, s, p))
    unfolding sequence_number
    waiting_txn_panics t sender a hash b s p key sig ahead =
        let added = add_raw_txn-new ExecuteError t a hash key (omega arith) in
        let (v, into, _, _, back) =
          from_verified-into_verified d json verified ExecuteError t a
            (account-raw_txn_key d ExecuteError t a hash key) in
        (
          v,
          rw added (ground (arith, bytes_beq_refl a)),
          best_txns-single ExecuteError (add_raw_txn d {E = ExecuteError} t new).1 a
              t.txn.unsigned.nonce (record { raw_txn = t; status = waiting }) v (rw added) into,
          execute_block-panics b t v s p back (execute_next-ahead t sender s sig ahead),
        )
