-- ===== src/Mempool/Holds.antt =====
-- After an addition the pool of txpool/mempool.rs holds the transaction.
use gravity_kvstore.Prelude.{
  ◌+◌, ◌<◌, ◌≡◌, refl, Bytes, bytes_eq, bytes_beq_refl, some, ok, arith, u64_mod, leb, ltb, ◌&&◌,
  Bool-cases, inl, inr, [],
}
use gravity_kvstore.Dict
use gravity_kvstore.BTree
use gravity_kvstore.BTree.{BTree}
use gravity_kvstore.BTree.Laws.{lookup-insert}
use gravity_kvstore.Types.{TransactionWithAccount}
use gravity_kvstore.Types.Deps.{Deps}
use gravity_kvstore.Types.Convert.{sequence_number}
use gravity_kvstore.Mempool.{
  MempoolTxn, Pool, add_raw_txn, raw_txn_key, or_insert, waiting, pending,
}
use gravity_kvstore.Mempool.WellFormed.{IsWellFormed}
use gravity_kvstore.Mempool.Add.{entries_with, mark_of, add_raw_txn-marks}

-- The pool holds the transaction, under the account and its nonce.
abbrev pub Holds : Bytes → TransactionWithAccount → Pool → Type 0
Holds a txn pool =
    (entries : BTree MempoolTxn) × (entry : MempoolTxn) × (Dict.lookup a pool.mempool
      ≡ some entries)
    × (BTree.lookup (sequence_number txn) entries ≡ some entry)
    × (entry.raw_txn ≡ txn)

module _ (d : Deps) (E : Type 0) (txn : TransactionWithAccount) (pool : Pool) (a hash : Bytes) where
  -- It does not panic, answers with the hash, and the pool holds the transaction.
  pub add_raw_txn-Holds :
      IsWellFormed pool
      → sequence_number txn + 1 < u64_mod
      → raw_txn_key d {E = E} txn ≡ ok (a, hash)
      → let (result, pool') = add_raw_txn d {E = E} txn pool in
        (result ≡ ok hash) × Holds a txn pool'
  add_raw_txn-Holds w fits key =
      let seq = sequence_number txn in
      let (mark, after, done, _, found, _, _, at) =
        add_raw_txn-marks d E txn pool a hash seq a w fits key in
      let fresh : MempoolTxn = record { raw_txn = txn; status = waiting } in
      let put : BTree.lookup seq (entries_with a txn pool) ≡ some fresh =
        ground (arith, lookup-insert seq seq fresh (or_insert [] (Dict.lookup a pool.mempool))) in
      let here : Dict.lookup a (add_raw_txn d {E = E} txn pool).1.mempool ≡ some after =
        ground (arith, bytes_beq_refl a) in
      (
        done,
        elim (Bool-cases (leb (mark_of a pool) seq && ltb seq mark)) [
          | inl passed ↦ (after, record fresh { status = pending }, here, ground arith, refl)
          | inr not_passed ↦ (after, fresh, here, ground arith, refl)
        ],
      )
