-- ===== src/Mempool/Add.antt =====
-- What `add_raw_txn` of txpool/mempool.rs leaves: the water mark is the first gap, and the entries
-- before it are pending.
use gravity_kvstore.Prelude.{
  ℕ, ◌+◌, ◌≤◌, ◌<◌, ◌≡◌, refl, ◌&&◌, leb, ltb, if◌then◌else◌, Bytes, bytes_eq, bytes_beq,
  bytes_beq_refl, none, some, [], ok, arith, u64_mod,
}
use gravity_kvstore.Dict
use gravity_kvstore.Dict.Laws.{lookup-insert}
use gravity_kvstore.BTree
use gravity_kvstore.BTree.{BTree}
use gravity_kvstore.Types.{TransactionWithAccount}
use gravity_kvstore.Types.Deps.{Deps}
use gravity_kvstore.Types.Convert.{sequence_number}
use gravity_kvstore.Mempool.{
  MempoolTxn, Pool, waiting, or_insert, put_txn, promote, process_txn, add_txn, add_raw_txn,
  raw_txn_key,
}
use gravity_kvstore.Mempool.Promote.{mark_pending, promote-end, promote-covers, lookup-promote}
use gravity_kvstore.Mempool.WellFormed.{IsWellFormed, insert-IsTree}

-- The account's entries with the new one, which is waiting.
abbrev pub entries_with : Bytes → TransactionWithAccount → Pool → BTree MempoolTxn
entries_with a txn pool =
    BTree.insert (sequence_number txn) (record { raw_txn = txn; status = waiting })
      (or_insert [] (Dict.lookup a pool.mempool))

abbrev pub mark_of : Bytes → Pool → ℕ
mark_of a pool = or_insert 0 (Dict.lookup a pool.water_mark)

module _ (d : Deps) (E : Type 0) (txn : TransactionWithAccount) (pool : Pool) (a : Bytes) where
  -- The pool that the walk over the new entries, from the old mark, leaves.
  abbrev walked : ℕ × BTree MempoolTxn → Pool
  walked (seq, txns) = record {
    water_mark = Dict.insert a seq pool.water_mark;
    mempool = Dict.insert a txns (Dict.insert a (entries_with a txn pool) pool.mempool);
  }

  add_txn-eq-walked :
      let (done, seq, txns) =
        promote {E = E} d.overflow_checks (entries_with a txn pool) (mark_of a pool) in
      add_txn d {E = E} a (sequence_number txn) txn pool ≡ (done, walked (seq, txns))
  unfolding add_txn process_txn put_txn
  add_txn-eq-walked =
      ground (arith, lookup-insert a a (entries_with a txn pool) pool.mempool, bytes_beq_refl a)

  add_raw_txn-eq-walked :
      (hash : Bytes)
      → raw_txn_key d {E = E} txn ≡ ok (a, hash)
      → let (done, seq, txns) =
          promote {E = E} d.overflow_checks (entries_with a txn pool) (mark_of a pool) in
        done ≡ ok tt → add_raw_txn d {E = E} txn pool ≡ (ok hash, walked (seq, txns))
  unfolding add_raw_txn
  add_raw_txn-eq-walked hash key done = ground (arith, add_txn-eq-walked)

  -- In a well formed pool, where the transaction's address converts, it can be hashed, and its
  -- nonce is not the last `u64`, an addition goes through with the hash. The account's mark does
  -- not fall, and ends at a number without an entry; an entry from the old mark up to the new is
  -- pending, any other as it was put in. Other accounts are as before.
  pub add_raw_txn-marks :
      (hash : Bytes) (n : ℕ) (b : Bytes)
      → IsWellFormed pool
      → sequence_number txn + 1 < u64_mod
      → raw_txn_key d {E = E} txn ≡ ok (a, hash)
      → let before = entries_with a txn pool in
        let (result, pool') = add_raw_txn d {E = E} txn pool in
        (mark : ℕ) × (after : BTree MempoolTxn) × (result ≡ ok hash)
        × (Dict.lookup b pool'.water_mark
            ≡ (if bytes_beq a b then some mark else Dict.lookup b pool.water_mark))
        × (Dict.lookup b pool'.mempool
            ≡ (if bytes_beq a b then some after else Dict.lookup b pool.mempool))
        × (mark_of a pool ≤ mark)
        × (BTree.lookup mark before ≡ none)
        × (BTree.lookup n after ≡ (
            if leb (mark_of a pool) n && ltb n mark
            then mark_pending (BTree.lookup n before)
            else BTree.lookup n before))
  unfolding add_raw_txn
  add_raw_txn-marks hash n b w fits key =
      let before = entries_with a txn pool in
      let old = mark_of a pool in
      let (sorted, keyed) =
        insert-IsTree a (sequence_number txn) (record { raw_txn = txn; status = waiting }) pool
          (refl, fits) w in
      let (done, up, gap) = promote-end E d.overflow_checks 0 before old sorted keyed in
      let (_, seq, txns) = promote {E = E} d.overflow_checks before old in
      let e = add_raw_txn-eq-walked hash key done in
      (
        seq,
        txns,
        rw e,
        rw e (lookup-insert a b seq pool.water_mark),
        rw e (
            ground (
              arith,
              lookup-insert a b txns (Dict.insert a before pool.mempool),
              lookup-insert a b before pool.mempool,
            )),
        up,
        gap,
        lookup-promote E d.overflow_checks 0 before old n sorted keyed,
      )

  -- Every number from the old mark up to the new has an entry.
  pub add_raw_txn-covers :
      (hash : Bytes) (n : ℕ)
      → IsWellFormed pool
      → sequence_number txn + 1 < u64_mod
      → raw_txn_key d {E = E} txn ≡ ok (a, hash)
      → mark_of a pool ≤ n
      → n < mark_of a (add_raw_txn d {E = E} txn pool).1
      → (found : MempoolTxn) × (BTree.lookup n (entries_with a txn pool) ≡ some found)
  add_raw_txn-covers hash n w fits key from below =
      let before = entries_with a txn pool in
      let old = mark_of a pool in
      let (sorted, keyed) =
        insert-IsTree a (sequence_number txn) (record { raw_txn = txn; status = waiting }) pool
          (refl, fits) w in
      let (done, _, _) = promote-end E d.overflow_checks 0 before old sorted keyed in
      let (_, seq, _) = promote {E = E} d.overflow_checks before old in
      let e = add_raw_txn-eq-walked hash key done in
      let mark : mark_of a (add_raw_txn d {E = E} txn pool).1 ≡ seq =
        rw e (ground (arith, lookup-insert a a seq pool.water_mark, bytes_beq_refl a)) in
      promote-covers E d.overflow_checks 0 before old n sorted keyed from (omega arith)
