-- ===== src/Mempool/Handle.antt =====
-- `KvStoreTxPool` of txpool/mempool.rs: the pool behind its two mutexes. A panic while they are
-- held, which is in `process_txn`, poisons both, and then each `lock().unwrap()` panics.
pub mod Lives
use gravity_kvstore.Prelude.{
  ℕ, Bool, true, false, Text, Bytes, List, [], ◌∷◌, Outcome, ok, err, panic, continue, ◌>>=◌,
}
use gravity_kvstore.Types.{TransactionWithAccount}
use gravity_kvstore.Types.Deps.{Deps}
use gravity_kvstore.Types.Convert.{sequence_number, from_verified}
use gravity_kvstore.Mempool
use gravity_kvstore.Mempool.{Pool, Filter, add_txn, raw_txn_key}

pub record KvStoreTxPool : Type 0 where
  pub pool : Pool
  pub poisoned : Bool

unfoldable pub new : KvStoreTxPool
new = record { pool = Mempool.new; poisoned = false }

-- The guards are dropped; a panic marks the mutexes.
abbrev pub release {ℓ} :
    {E : Type 0} {A : Type ℓ} → Outcome E A × Pool → Outcome E A × KvStoreTxPool
release (ok a, pool) = (ok a, record { pool = pool; poisoned = false })
release (err e, pool) = (err e, record { pool = pool; poisoned = false })
release (panic, pool) = (panic, record { pool = pool; poisoned = true })

-- What is done under the locks.
abbrev pub under_lock {ℓ} :
    {E : Type 0} {A : Type ℓ}
    → (Pool → Outcome E A × Pool)
    → KvStoreTxPool
    → Outcome E A × KvStoreTxPool
under_lock call handle = elim handle.poisoned [
  | true ↦ (panic, handle)
  | false ↦ release (call handle.pool)
]

module _ (d : Deps) where
  unfoldable pub add_raw_txn :
      {E : Type 0} → TransactionWithAccount → KvStoreTxPool → Outcome E Bytes × KvStoreTxPool
  add_raw_txn txn handle =
      continue (raw_txn_key d txn, handle)
        λ key.
          under_lock
            λ pool. continue (add_txn d key.0 (sequence_number txn) txn pool) λ _ p. (ok key.1, p)

  unfoldable pub add_verified_txn :
      {E : Type 0} → d.VerifiedTxn → Bytes → KvStoreTxPool → Outcome E Bytes × KvStoreTxPool
  add_verified_txn v random handle =
      continue (from_verified d v, handle)
        λ txn. under_lock λ pool.
          continue (add_txn d (d.verified_sender v) (d.verified_seq_number v) txn pool)
            λ _ p. (ok random, p)

  unfoldable pub remove_txn :
      {E : Type 0} → Bytes → ℕ → KvStoreTxPool → Outcome E (Unit {0}) × KvStoreTxPool
  remove_txn sender seq = under_lock λ pool. (ok tt, Mempool.remove_txn sender seq pool)

  -- The lock is held for the clone only.
  unfoldable pub best_txns :
      {E : Type 0} → Filter → KvStoreTxPool → Outcome E (List d.VerifiedTxn) × KvStoreTxPool
  best_txns filter handle =
      continue (under_lock (λ pool. (ok pool, pool)) handle)
        λ pool h. (Mempool.best_txns d filter pool, h)

  -- A call, with the random hash that an addition of a verified transaction answers.
  pub data Call : Type 0 where
    raw : TransactionWithAccount → Call
    verified : d.VerifiedTxn → Bytes → Call
    removal : Bytes → ℕ → Call
    best : Filter → Call

  -- What a call leaves, whether it answers or panics.
  abbrev pub called : Call → KvStoreTxPool → KvStoreTxPool
  called (raw txn) h = (add_raw_txn {E = Unit {0}} txn h).1
  called (verified v random) h = (add_verified_txn {E = Unit {0}} v random h).1
  called (removal sender seq) h = (remove_txn {E = Unit {0}} sender seq h).1
  called (best filter) h = (best_txns {E = Unit {0}} filter h).1

  abbrev pub all_called : List Call → KvStoreTxPool → KvStoreTxPool
  all_called [] h = h
  all_called (call ∷ calls) h = all_called calls (called call h)

  -- The same on the pool alone.
  abbrev pub called_alone : Call → Pool → Pool
  called_alone (raw txn) p = (Mempool.add_raw_txn d {E = Unit {0}} txn p).1
  called_alone (verified v random) p = (Mempool.add_verified_txn d {E = Unit {0}} v random p).1
  called_alone (removal sender seq) p = Mempool.remove_txn sender seq p
  called_alone (best filter) p = p

  abbrev pub all_called_alone : List Call → Pool → Pool
  all_called_alone [] p = p
  all_called_alone (call ∷ calls) p = all_called_alone calls (called_alone call p)
