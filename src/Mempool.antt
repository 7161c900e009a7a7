-- ===== src/Mempool.antt =====
-- txpool/mempool.rs. A call takes the pool and gives it back; a panic gives back what was written
-- before it. Each call runs alone here; `Concurrent` has the locks, and `Handle` the mutexes
-- that a panic poisons.
pub mod Promote
pub mod WellFormed
pub mod Add
pub mod Best
pub mod Holds
pub mod Order
pub mod Concurrent
pub mod Handed
pub mod Verified
pub mod Handle
use gravity_kvstore.Prelude.{
  ℕ, ◌+◌, ◌==◌, if◌then◌else◌, Bool, true, false, Text, Bytes, bytes_eq, Option, none, some, List,
  [], ◌∷◌, ◌++◌, Outcome, ok, err, panic, ◌>>=◌, continue, add_wrap, u64_mod,
}
use gravity_kvstore.Dict.{Dict}
use gravity_kvstore.Dict
use gravity_kvstore.BTree
use gravity_kvstore.BTree.{BTree}
use gravity_kvstore.Types.{TransactionWithAccount}
use gravity_kvstore.Types.Deps.{Deps}
use gravity_kvstore.Types.Convert.{account, sequence_number, into_verified, from_verified}
use gravity_kvstore.Crypto.{compute_transaction_hash}

pub data TxnStatus : Type 0 where
  pending waiting : TxnStatus

pub record MempoolTxn : Type 0 where
  pub raw_txn : TransactionWithAccount
  pub status : TxnStatus

-- `MempoolInner`
pub record Pool : Type 0 where
  -- next pending sequence number
  pub water_mark : Dict Bytes ℕ
  pub mempool : Dict Bytes (BTree MempoolTxn)

unfoldable pub new : Pool
new = record { water_mark = []; mempool = [] }

-- `.entry(account).or_insert(BTreeMap::new())`, `.entry(account).or_insert(0)`
abbrev pub or_insert {ℓ} : {A : Type ℓ} → A → Option A → A
or_insert fresh none = fresh
or_insert fresh (some a) = a

unfoldable pub remove_txn : Bytes → ℕ → Pool → Pool
remove_txn sender seq pool = elim (Dict.lookup sender pool.mempool) [
  | some txns ↦ record pool { mempool = Dict.insert sender (BTree.remove seq txns) pool.mempool }
  | none ↦ pool
]

-- `.entry(account).or_insert(BTreeMap::new()).insert(sequence_number, txn)`
unfoldable pub put_txn : Bytes → ℕ → MempoolTxn → Pool → Pool
put_txn sender seq txn pool = record pool {
  mempool =
      Dict.insert sender (BTree.insert seq txn (or_insert [] (Dict.lookup sender pool.mempool)))
        pool.mempool;
}

-- An entry that the loop leaves behind, in front of what the rest of the loop gives.
abbrev pub keep {ℓ} :
    {A : Type ℓ} → ℕ × MempoolTxn → A × ℕ × BTree MempoolTxn → A × ℕ × BTree MempoolTxn
keep entry (a, seq, txns) = (a, seq, entry ∷ txns)

-- The loop of `process_txn` over `account_mempool.values_mut()`, with `*sequence_number`: an entry
-- whose nonce is the number becomes pending, and the number goes up.
unfoldable pub promote :
    {E : Type 0} → Bool → BTree MempoolTxn → ℕ → Outcome E (Unit {0}) × ℕ × BTree MempoolTxn
promote checks [] seq = (ok tt, seq, [])
promote {E} checks ((k, txn) ∷ txns) seq = elim (sequence_number txn.raw_txn == seq) [
  | true ↦ elim (add_wrap {E = E} checks u64_mod seq 1) [
    | ok next ↦ keep (k, record txn { status = pending }) (promote checks txns next)
    | err e ↦ (err e, seq, (k, txn) ∷ txns)
    | panic ↦ (panic, seq, (k, txn) ∷ txns)
  ]
  | false ↦ keep (k, txn) (promote checks txns seq)
]

-- The filter of `best_txns` takes the sender, the sequence number and the hash.
abbrev pub Filter : Type 0
Filter = Option (Bytes → ℕ → Bytes → Bool)

module _ (d : Deps) where
  -- The mutexes that a panic in here poisons are in `Handle`.
  unfoldable pub process_txn : {E : Type 0} → Bytes → Pool → Outcome E (Unit {0}) × Pool
  process_txn account pool = elim (Dict.lookup account pool.mempool) [
    | none ↦ (panic, pool)
    | some txns ↦
        let seq = or_insert 0 (Dict.lookup account pool.water_mark) in
        let (done, seq', txns') = promote d.overflow_checks txns seq in
        (
          done,
          record {
            water_mark = Dict.insert account seq' pool.water_mark;
            mempool = Dict.insert account txns' pool.mempool;
          },
        )
  ]

  -- The two steps of an addition: the entry is put in as waiting, and its account is processed.
  unfoldable pub add_txn :
      {E : Type 0} → Bytes → ℕ → TransactionWithAccount → Pool → Outcome E (Unit {0}) × Pool
  add_txn sender seq txn pool =
      process_txn sender (put_txn sender seq (record { raw_txn = txn; status = waiting }) pool)

  -- `TxnHash::random()` is the argument `random`.
  unfoldable pub add_verified_txn :
      {E : Type 0} → d.VerifiedTxn → Bytes → Pool → Outcome E Bytes × Pool
  add_verified_txn v random pool =
      continue (from_verified d v, pool)
        λ txn p.
          continue (add_txn (d.verified_sender v) (d.verified_seq_number v) txn p)
            λ _ p'. (ok random, p')

  -- What `add_raw_txn` computes before it takes the lock: the account and the hash.
  unfoldable pub raw_txn_key : {E : Type 0} → TransactionWithAccount → Outcome E (Bytes × Bytes)
  raw_txn_key txn = do
    sender ← account d txn
    hash ← compute_transaction_hash d txn.txn.unsigned
    ok (sender, hash)

  unfoldable pub add_raw_txn : {E : Type 0} → TransactionWithAccount → Pool → Outcome E Bytes × Pool
  add_raw_txn txn pool =
      continue (raw_txn_key txn, pool)
        λ key p. continue (add_txn key.0 (sequence_number txn) txn p) λ _ p'. (ok key.1, p')

  -- `if let Some(filter) = …  { if !filter(…) { return None; } }`
  abbrev pub passes : Filter → Bytes → ℕ → d.VerifiedTxn → Bool
  passes none sender seq v = true
  passes (some filter) sender seq v = filter sender seq (d.verified_committed_hash v)

  -- The `filter_map` over the transactions of one sender.
  unfoldable pub best_of_account :
      {E : Type 0} → Filter → Bytes → BTree MempoolTxn → Outcome E (List d.VerifiedTxn)
  best_of_account filter sender [] = ok []
  best_of_account filter sender ((seq, txn) ∷ txns) = do
    verified ← into_verified d txn.raw_txn
    rest ← best_of_account filter sender txns
    ok (if passes filter sender seq verified then verified ∷ rest else rest)

  -- The `flat_map` over the senders; what the iterator yields when it is run to its end.
  unfoldable pub best_of_all :
      {E : Type 0} → Filter → Dict Bytes (BTree MempoolTxn) → Outcome E (List d.VerifiedTxn)
  best_of_all filter [] = ok []
  best_of_all filter ((sender, txns) ∷ more) = do
    first ← best_of_account filter sender txns
    rest ← best_of_all filter more
    ok (first ++ rest)

  unfoldable pub best_txns : {E : Type 0} → Filter → Pool → Outcome E (List d.VerifiedTxn)
  best_txns filter pool = best_of_all filter pool.mempool
