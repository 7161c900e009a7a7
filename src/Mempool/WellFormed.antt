-- ===== src/Mempool/WellFormed.antt =====
-- The invariant of the pool of txpool/mempool.rs, and that every operation keeps it.
use gravity_kvstore.Prelude.{
  ℕ, ◌+◌, ◌<◌, ◌≡◌, refl, Bool, Bytes, bytes_eq, [], ◌∷◌, arith, All, u64_mod, Option-cases, inl,
  inr, ◌%◌, continue-keeps,
}
use gravity_kvstore.Dict
use gravity_kvstore.Dict.Laws.{AllValues, AllValues-lookup, AllValues-insert}
use gravity_kvstore.BTree
use gravity_kvstore.BTree.{BTree, IsSortedFrom, IsSorted}
use gravity_kvstore.BTree.Laws.{insert-IsSortedFrom, remove-IsSortedFrom}
use gravity_kvstore.Types.{TransactionWithAccount}
use gravity_kvstore.Types.Deps.{Deps}
use gravity_kvstore.Types.Convert.{sequence_number}
use gravity_kvstore.Mempool.{
  MempoolTxn, Pool, waiting, or_insert, remove_txn, put_txn, promote, process_txn, add_txn,
  add_raw_txn, raw_txn_key,
}
use gravity_kvstore.Mempool.Promote.{IsKeyed}

-- One account's entries ascend, and each stands under its own nonce.
abbrev pub IsTree : BTree MempoolTxn → Type 0
IsTree txns = IsSorted txns × All IsKeyed txns

abbrev pub IsWellFormed : Pool → Type 0
IsWellFormed pool = AllValues IsTree pool.mempool

pub or_insert-IsTree :
    (a : Bytes) (pool : Pool)
    → IsWellFormed pool
    → IsTree (or_insert [] (Dict.lookup a pool.mempool))
or_insert-IsTree a pool h = elim (Option-cases (Dict.lookup a pool.mempool)) [
  | inl e ↦ rw e (tt, tt)
  | inr (txns, e) ↦ rw e (AllValues-lookup IsTree a txns pool.mempool h e)
]

insert-IsKeyed :
    (k : ℕ) (txn : MempoolTxn) (txns : BTree MempoolTxn)
    → IsKeyed (k, txn)
    → All IsKeyed txns
    → All IsKeyed (BTree.insert k txn txns)
insert-IsKeyed k txn [] q h = (q, tt)
insert-IsKeyed k txn ((j, t) ∷ txns) q h = ground (arith, insert-IsKeyed k txn txns q h.1)

remove-IsKeyed :
    (k : ℕ) (txns : BTree MempoolTxn) → All IsKeyed txns → All IsKeyed (BTree.remove k txns)
remove-IsKeyed k [] h = tt
remove-IsKeyed k ((j, t) ∷ txns) h = ground (arith, remove-IsKeyed k txns h.1)

module _ (E : Type 0) (checks : Bool) where
  promote-IsSortedFrom :
      (lo : ℕ) (txns : BTree MempoolTxn) (seq : ℕ)
      → IsSortedFrom lo txns
      → IsSortedFrom lo (promote {E = E} checks txns seq).2
  unfolding promote
  promote-IsSortedFrom lo [] seq h = tt
  promote-IsSortedFrom lo ((k, txn) ∷ txns) seq h = ground (
    arith,
    promote-IsSortedFrom (k + 1) txns (seq + 1) h.1,
    promote-IsSortedFrom (k + 1) txns ((seq + 1) % u64_mod) h.1,
    promote-IsSortedFrom (k + 1) txns seq h.1,
  )

  promote-IsKeyed :
      (txns : BTree MempoolTxn) (seq : ℕ)
      → All IsKeyed txns
      → All IsKeyed (promote {E = E} checks txns seq).2
  unfolding promote sequence_number
  promote-IsKeyed [] seq h = tt
  promote-IsKeyed ((k, txn) ∷ txns) seq h = ground (
    arith,
    promote-IsKeyed txns (seq + 1) h.1,
    promote-IsKeyed txns ((seq + 1) % u64_mod) h.1,
    promote-IsKeyed txns seq h.1,
  )

-- Removing a transaction keeps the pool well formed.
pub remove_txn-IsWellFormed :
    (a : Bytes) (seq : ℕ) (pool : Pool) → IsWellFormed pool → IsWellFormed (remove_txn a seq pool)
unfolding remove_txn
remove_txn-IsWellFormed a seq pool h = elim (Option-cases (Dict.lookup a pool.mempool)) [
  | inl e ↦ rw (e, remove_txn) h
  | inr (txns, e) ↦
      let t = AllValues-lookup IsTree a txns pool.mempool h e in
      rw (e, remove_txn)
        (AllValues-insert IsTree a (BTree.remove seq txns) pool.mempool h
          (remove-IsSortedFrom 0 seq txns t.0, remove-IsKeyed seq txns t.1))
]

-- An account's entries with one more.
pub insert-IsTree :
    (a : Bytes) (seq : ℕ) (txn : MempoolTxn) (pool : Pool)
    → IsKeyed (seq, txn)
    → IsWellFormed pool
    → IsTree (BTree.insert seq txn (or_insert [] (Dict.lookup a pool.mempool)))
insert-IsTree a seq txn pool q h =
    let t = or_insert-IsTree a pool h in
    (insert-IsSortedFrom 0 seq txn _ t.0 (omega arith), insert-IsKeyed seq txn _ q t.1)

pub put_txn-IsWellFormed :
    (a : Bytes) (seq : ℕ) (txn : MempoolTxn) (pool : Pool)
    → IsKeyed (seq, txn)
    → IsWellFormed pool
    → IsWellFormed (put_txn a seq txn pool)
unfolding put_txn
put_txn-IsWellFormed a seq txn pool q h =
    AllValues-insert IsTree a _ pool.mempool h (insert-IsTree a seq txn pool q h)

module _ (d : Deps) (E : Type 0) where
  pub process_txn-IsWellFormed :
      (a : Bytes) (pool : Pool) → IsWellFormed pool → IsWellFormed (process_txn d {E = E} a pool).1
  unfolding process_txn
  process_txn-IsWellFormed a pool h = elim (Option-cases (Dict.lookup a pool.mempool)) [
    | inl e ↦ rw (e, process_txn) h
    | inr (txns, e) ↦
        let t = AllValues-lookup IsTree a txns pool.mempool h e in
        rw (e, process_txn)
          (AllValues-insert IsTree a _ pool.mempool h (
            promote-IsSortedFrom E d.overflow_checks 0 txns
                (or_insert 0 (Dict.lookup a pool.water_mark)) t.0,
            promote-IsKeyed E d.overflow_checks txns (or_insert 0 (Dict.lookup a pool.water_mark))
                t.1,
          ))
  ]

  add_txn-IsWellFormed :
      (a : Bytes) (seq : ℕ) (txn : TransactionWithAccount) (pool : Pool)
      → sequence_number txn ≡ seq
      → seq + 1 < u64_mod
      → IsWellFormed pool
      → IsWellFormed (add_txn d {E = E} a seq txn pool).1
  unfolding add_txn
  add_txn-IsWellFormed a seq txn pool same fits h =
      process_txn-IsWellFormed a _ (
        put_txn-IsWellFormed a seq (record { raw_txn = txn; status = waiting }) pool (same, fits) h)

  -- Adding a transaction whose nonce is not the last `u64`, whether it goes through or panics,
  -- keeps the pool well formed: each account's entries ascend, and stand under their own nonces.
  pub add_raw_txn-IsWellFormed :
      (txn : TransactionWithAccount) (pool : Pool)
      → sequence_number txn + 1 < u64_mod
      → IsWellFormed pool
      → IsWellFormed (add_raw_txn d {E = E} txn pool).1
  unfolding add_raw_txn
  add_raw_txn-IsWellFormed txn pool fits h =
      continue-keeps IsWellFormed (raw_txn_key d txn, pool) _ h
        λ key p w.
          continue-keeps IsWellFormed (add_txn d key.0 (sequence_number txn) txn p) _
            (add_txn-IsWellFormed key.0 (sequence_number txn) txn p refl fits w) (λ _ q v. v)
