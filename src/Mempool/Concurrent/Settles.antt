-- ===== src/Mempool/Concurrent/Settles.antt =====
-- Whatever mixes, no addition to the pool of txpool/mempool.rs panics halfway, and none leaves an
-- entry waiting that could be pending.
use gravity_kvstore.Prelude.{
  ℕ, ◌+◌, ◌<◌, ◌≡◌, refl, Bytes, bytes_eq, bytes_beq, bytes_beq_refl, bytes_beq_iff, true, false,
  ◌||◌, some, List, [], ◌∷◌, ◌++◌, ok, arith, u64_mod, Option-cases, ◌⊎◌, Bool-cases, inl, inr,
}
use gravity_kvstore.Dict
use gravity_kvstore.Dict.Laws.{lookup-insert, AllValues-lookup}
use gravity_kvstore.BTree
use gravity_kvstore.BTree.{BTree}
use gravity_kvstore.BTree.Laws.{lookup-remove}
use gravity_kvstore.Types.{TransactionWithAccount}
use gravity_kvstore.Types.Deps.{Deps}
use gravity_kvstore.Types.Convert.{sequence_number}
use gravity_kvstore.Mempool.{
  MempoolTxn, Pool, waiting, or_insert, remove_txn, put_txn, process_txn, promote, new,
}
use gravity_kvstore.Mempool.Promote.{promote-end, lookup-promote}
use gravity_kvstore.Mempool.WellFormed.{
  IsTree, IsWellFormed, put_txn-IsWellFormed, process_txn-IsWellFormed, remove_txn-IsWellFormed,
}
use gravity_kvstore.Mempool.Add.{mark_of}
use gravity_kvstore.Mempool.Order.{is_some, present}
use gravity_kvstore.Mempool.Concurrent.{
  Shared, awaits, put, process, Step, put_raw, put_verified, finish, remove, Run, start, next,
}

-- Every addition under way finds its account's entries, and where none is under way an account has
-- no entry at its water mark.
pub record IsConsistent (s : Shared) : Type 0 where
  pub well_formed : IsWellFormed s.pool
  pub found : (a : Bytes) → awaits a s.calls ≡ true → is_some (Dict.lookup a s.pool.mempool) ≡ true
  pub settled : (a : Bytes) → awaits a s.calls ≡ false → present a (mark_of a s.pool) s.pool ≡ false

awaits-append :
    (b a : Bytes) (before after : List Bytes)
    → awaits b (before ++ a ∷ after) ≡ (bytes_beq a b || awaits b (before ++ after))
awaits-append b a [] after = refl
awaits-append b a (c ∷ before) after = ground (arith, awaits-append b a before after)

put-IsConsistent :
    (s : Shared) (a : Bytes) (txn : TransactionWithAccount)
    → sequence_number txn + 1 < u64_mod
    → IsConsistent s
    → IsConsistent (put a txn s)
unfolding put_txn
put-IsConsistent s a txn fits h =
    let entry : MempoolTxn = record { raw_txn = txn; status = waiting } in
    let entries =
      BTree.insert (sequence_number txn) entry (or_insert [] (Dict.lookup a s.pool.mempool)) in
    record {
      well_formed =
          put_txn-IsWellFormed a (sequence_number txn) entry s.pool (refl, fits) h.well_formed;
      found = λ b q. ground (arith, lookup-insert a b entries s.pool.mempool, h.found b);
      settled = λ b q. ground (arith, lookup-insert a b entries s.pool.mempool, h.settled b);
    }

remove-IsConsistent :
    (s : Shared) (sender : Bytes) (seq : ℕ)
    → IsConsistent s
    → IsConsistent (record s { pool = remove_txn sender seq s.pool })
unfolding remove_txn
remove-IsConsistent s sender seq h = elim (Option-cases (Dict.lookup sender s.pool.mempool)) [
  | inl e ↦ record {
    well_formed = remove_txn-IsWellFormed sender seq s.pool h.well_formed;
    found = λ b q. ground (arith, h.found b);
    settled = λ b q. ground (arith, h.settled b);
  }
  | inr (txns, e) ↦
      let tree = AllValues-lookup IsTree sender txns s.pool.mempool h.well_formed e in
      let rest = BTree.remove seq txns in
      record {
        well_formed = remove_txn-IsWellFormed sender seq s.pool h.well_formed;
        found = λ b q. ground (arith, lookup-insert sender b rest s.pool.mempool, h.found b);
        settled = λ b q. ground (
          arith,
          bytes_beq_iff sender b,
          lookup-insert sender b rest s.pool.mempool,
          h.settled b,
          lookup-remove 0 seq (mark_of b s.pool) txns tree.0,
        );
      }
]

module _ (d : Deps) (E : Type 0) (a : Bytes) (s : Shared) (h : IsConsistent s)
    (under_way : awaits a s.calls ≡ true) where
  -- The entries that the step finds.
  entries-found : (txns : BTree MempoolTxn) × (Dict.lookup a s.pool.mempool ≡ some txns)
  entries-found = elim (Option-cases (Dict.lookup a s.pool.mempool)) [
    | inl e ↦ absurd (ground (arith, h.found a))
    | inr found ↦ found
  ]

  process_txn-ok : (process_txn d {E = E} a s.pool).0 ≡ ok tt
  unfolding process_txn
  process_txn-ok =
      let (txns, e) = entries-found in
      let tree = AllValues-lookup IsTree a txns s.pool.mempool h.well_formed e in
      rw (e, process_txn)
        (promote-end E d.overflow_checks 0 txns (mark_of a s.pool) tree.0 tree.1).0

module _ (d : Deps) (E : Type 0) (before after : List Bytes) (a : Bytes) (pool : Pool)
    (h : IsConsistent (record { pool = pool; calls = before ++ a ∷ after })) where
  process-IsConsistent : IsConsistent (process d E before a after pool)
  unfolding process_txn
  process-IsConsistent =
      let (txns, e) =
        entries-found d E a (record { pool = pool; calls = before ++ a ∷ after }) h
          (ground (arith, awaits-append a a before after, bytes_beq_refl a)) in
      let tree = AllValues-lookup IsTree a txns pool.mempool h.well_formed e in
      let old = mark_of a pool in
      let (_, _, gap) = promote-end E d.overflow_checks 0 txns old tree.0 tree.1 in
      let (_, mark, txns') = promote {E = E} d.overflow_checks txns old in
      let passed = lookup-promote E d.overflow_checks 0 txns old mark tree.0 tree.1 in
      record {
        well_formed = process_txn-IsWellFormed d E a pool h.well_formed;
        found = λ b q. ground (
          arith,
          h.found b,
          awaits-append b a before after,
          lookup-insert a b txns' pool.mempool,
        );
        settled = λ b q. ground (
          arith,
          bytes_beq_iff a b,
          h.settled b,
          awaits-append b a before after,
          lookup-insert a b txns' pool.mempool,
          lookup-insert a b mark pool.water_mark,
        );
      }

module _ (d : Deps) (E : Type 0) where
  Step-IsConsistent : {s s' : Shared} → Step d E s s' → IsConsistent s → IsConsistent s'
  Step-IsConsistent (put_raw s txn a hash key fits) h = put-IsConsistent s a txn fits h
  Step-IsConsistent (put_verified s v txn same number fits) h =
      put-IsConsistent s (d.verified_sender v) txn fits h
  Step-IsConsistent (finish before after a pool) h = process-IsConsistent d E before after a pool h
  Step-IsConsistent (remove s sender seq) h = remove-IsConsistent s sender seq h

  Run-IsConsistent : {s s' : Shared} → Run d E s s' → IsConsistent s → IsConsistent s'
  Run-IsConsistent start h = h
  Run-IsConsistent (next run step) h = Step-IsConsistent step (Run-IsConsistent run h)

  -- However the steps of additions and of removals have mixed since the pool was new, where no
  -- addition is of a transaction whose nonce is the last `u64`, and a verified transaction that is
  -- added has its nonce for its sequence number: the pool is well formed; and of each account,
  -- either an addition to it is between its two steps, and then the second goes through: it finds
  -- the account's entries and its count does not overflow; or none is, and then the account has no
  -- entry at its water mark, so nothing that could be pending has been left waiting.
  pub Run-settles :
      {s : Shared} (a : Bytes)
      → Run d E (record { pool = new; calls = [] }) s
      → IsWellFormed s.pool
        × (((awaits a s.calls ≡ true) × ((process_txn d {E = E} a s.pool).0 ≡ ok tt))
            ⊎ ((awaits a s.calls ≡ false) × (present a (mark_of a s.pool) s.pool ≡ false)))
  unfolding new
  Run-settles {s} a run =
      let h =
        Run-IsConsistent run
          (record { well_formed = tt; found = λ b q. cc; settled = λ b q. refl }) in
      (
        h.well_formed,
        elim (Bool-cases (awaits a s.calls)) [
          | inl waits ↦ inl (waits, process_txn-ok d E a s h waits)
          | inr free ↦ inr (free, h.settled a free)
        ],
      )
