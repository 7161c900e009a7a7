-- ===== src/Mempool/Handle/Lives.antt =====
-- The mutexes of txpool/mempool.rs are not poisoned.
use gravity_kvstore.Prelude.{
  ℕ, ◌+◌, ◌<◌, ◌≡◌, refl, sym, ◌∙◌, ap, Bool, false, Bytes, bytes_eq, bytes_beq_refl, List, [], ◌∷◌,
  Outcome, ok, err, panic, arith, All, u64_mod, subst, continue, Option-cases, inl, inr,
}
use gravity_kvstore.Dict
use gravity_kvstore.Dict.Laws.{AllValues, AllValues-lookup, AllValues-insert, lookup-insert}
use gravity_kvstore.BTree
use gravity_kvstore.BTree.{BTree}
use gravity_kvstore.Types.{TransactionWithAccount}
use gravity_kvstore.Types.Deps.{Deps}
use gravity_kvstore.Types.Convert.{sequence_number, from_verified}
use gravity_kvstore.Mempool
use gravity_kvstore.Mempool.{
  MempoolTxn, Pool, waiting, or_insert, put_txn, promote, process_txn, add_txn, raw_txn_key,
}
use gravity_kvstore.Mempool.Handle.{
  KvStoreTxPool, release, under_lock, new, add_raw_txn, add_verified_txn, remove_txn, best_txns,
  Call, raw, verified, removal, best, called, all_called, called_alone, all_called_alone,
}

-- The entry's nonce is not the last `u64`.
abbrev pub IsFitting : ℕ × MempoolTxn → Type 0
IsFitting (k, txn) = sequence_number txn.raw_txn + 1 < u64_mod

abbrev pub AreFitting : Pool → Type 0
AreFitting pool = AllValues (All IsFitting) pool.mempool

insert-IsFitting :
    (k : ℕ) (txn : MempoolTxn) (txns : BTree MempoolTxn)
    → IsFitting (k, txn)
    → All IsFitting txns
    → All IsFitting (BTree.insert k txn txns)
insert-IsFitting k txn [] q h = (q, tt)
insert-IsFitting k txn ((j, t) ∷ txns) q h = ground (arith, insert-IsFitting k txn txns q h.1)

remove-IsFitting :
    (k : ℕ) (txns : BTree MempoolTxn) → All IsFitting txns → All IsFitting (BTree.remove k txns)
remove-IsFitting k [] h = tt
remove-IsFitting k ((j, t) ∷ txns) h = ground (arith, remove-IsFitting k txns h.1)

-- The count stays in the range of `u64`: it goes past a nonce that is not the last.
promote-IsFitting :
    (E : Type 0) (checks : Bool) (txns : BTree MempoolTxn) (seq : ℕ)
    → All IsFitting txns
    → ((promote {E = E} checks txns seq).0 ≡ ok tt)
      × All IsFitting (promote {E = E} checks txns seq).2
unfolding promote
promote-IsFitting E checks [] seq h = (refl, tt)
promote-IsFitting E checks ((k, txn) ∷ txns) seq h =
    ground (
      arith,
      promote-IsFitting E checks txns (seq + 1) h.1,
      promote-IsFitting E checks txns seq h.1,
    )

or_insert-IsFitting :
    (a : Bytes) (pool : Pool)
    → AreFitting pool
    → All IsFitting (or_insert [] (Dict.lookup a pool.mempool))
or_insert-IsFitting a pool h = elim (Option-cases (Dict.lookup a pool.mempool)) [
  | inl e ↦ rw e tt
  | inr (txns, e) ↦ rw e (AllValues-lookup (All IsFitting) a txns pool.mempool h e)
]

remove_txn-AreFitting :
    (a : Bytes) (seq : ℕ) (pool : Pool)
    → AreFitting pool
    → AreFitting (Mempool.remove_txn a seq pool)
unfolding Mempool.remove_txn
remove_txn-AreFitting a seq pool h = elim (Option-cases (Dict.lookup a pool.mempool)) [
  | inl e ↦ rw (e, Mempool.remove_txn) h
  | inr (txns, e) ↦
      rw (e, Mempool.remove_txn)
        (AllValues-insert (All IsFitting) a (BTree.remove seq txns) pool.mempool h
          (remove-IsFitting seq txns (AllValues-lookup (All IsFitting) a txns pool.mempool h e)))
]

abbrev live : Pool → KvStoreTxPool
live pool = record { pool = pool; poisoned = false }

-- What is computed before the locks, and then done under them.
locked-live :
    {A B : Type 0} (o : Outcome (Unit {0}) A) (call : A → Pool → Outcome (Unit {0}) B × Pool)
    (pool : Pool)
    → AreFitting pool
    → ((a : A) → o ≡ ok a → (b : B) × (p : Pool) × (call a pool ≡ (ok b, p)) × AreFitting p)
    → let after = (continue (o, pool) call).1 in
      ((continue (o, live pool) (λ a. under_lock (call a))).1 ≡ live after) × AreFitting after
locked-live {B = B} (ok a) call pool h more =
    let (b, p, e, kept) = more a refl in
    subst (λ (q : Outcome (Unit {0}) B × Pool). ((release q).1 ≡ live q.1) × AreFitting q.1) (sym e)
      (refl, kept)
locked-live (err e) call pool h more = (refl, h)
locked-live panic call pool h more = (refl, h)

module _ (d : Deps) where
  add_txn-AreFitting :
      (a : Bytes) (seq : ℕ) (txn : TransactionWithAccount) (pool : Pool)
      → sequence_number txn + 1 < u64_mod
      → AreFitting pool
      → (p : Pool) × (add_txn d {E = Unit {0}} a seq txn pool ≡ (ok tt, p)) × AreFitting p
  unfolding add_txn process_txn put_txn
  add_txn-AreFitting a seq txn pool fits h =
      let fresh : MempoolTxn = record { raw_txn = txn; status = waiting } in
      let entries = BTree.insert seq fresh (or_insert [] (Dict.lookup a pool.mempool)) in
      let mark = or_insert 0 (Dict.lookup a pool.water_mark) in
      let put = insert-IsFitting seq fresh _ fits (or_insert-IsFitting a pool h) in
      let (done, kept) = promote-IsFitting (Unit {0}) d.overflow_checks entries mark put in
      let (_, mark', entries') = promote {E = Unit {0}} d.overflow_checks entries mark in
      (
        record {
          water_mark = Dict.insert a mark' pool.water_mark;
          mempool = Dict.insert a entries' (Dict.insert a entries pool.mempool);
        },
        ground (arith, lookup-insert a a entries pool.mempool, bytes_beq_refl a),
        AllValues-insert (All IsFitting) a entries' _
            (AllValues-insert (All IsFitting) a entries pool.mempool h put) kept,
      )

  -- The transaction of an addition, if it reads as one, has a nonce that is not the last `u64`.
  abbrev pub IsInRange : Call d → Type 0
  IsInRange (raw txn) = sequence_number txn + 1 < u64_mod
  IsInRange (verified v random) =
      (txn : TransactionWithAccount)
      → from_verified d {E = Unit {0}} v ≡ ok txn
      → sequence_number txn + 1 < u64_mod
  IsInRange (removal sender seq) = Unit
  IsInRange (best filter) = Unit

  then-answers :
      (sender answer : Bytes) (seq : ℕ) (txn : TransactionWithAccount) (pool : Pool)
      → sequence_number txn + 1 < u64_mod
      → AreFitting pool
      → (b : Bytes) × (p : Pool) × (continue
            (add_txn d {E = Unit {0}} sender seq txn pool)
            (λ _ p'. (ok answer, p'))
          ≡ (ok b, p))
        × AreFitting p
  then-answers sender answer seq txn pool fits h =
      let (p, added, kept) = add_txn-AreFitting sender seq txn pool fits h in
      (answer, p, rw added refl, kept)

  called-live :
      (call : Call d) (pool : Pool)
      → IsInRange call
      → AreFitting pool
      → (called d call (live pool) ≡ live (called_alone d call pool))
        × AreFitting (called_alone d call pool)
  unfolding add_raw_txn add_verified_txn remove_txn best_txns Mempool.add_raw_txn
      Mempool.add_verified_txn
  called-live (raw txn) pool fits h =
      locked-live (raw_txn_key d txn) _ pool h
        λ key _. then-answers key.0 key.1 (sequence_number txn) txn pool fits h
  called-live (verified v random) pool fits h =
      locked-live (from_verified d v) _ pool h λ txn reads.
        then-answers (d.verified_sender v) random (d.verified_seq_number v) txn pool
          (fits txn reads) h
  called-live (removal sender seq) pool fits h = (refl, remove_txn-AreFitting sender seq pool h)
  called-live (best filter) pool fits h = (refl, h)

  all_called-live :
      (calls : List (Call d)) (pool : Pool)
      → All IsInRange calls
      → AreFitting pool
      → all_called d calls (live pool) ≡ live (all_called_alone d calls pool)
  all_called-live [] pool fits h = refl
  all_called-live (call ∷ calls) pool fits h =
      let (same, kept) = called-live call pool fits.0 h in
      ap (all_called d calls) same ∙ all_called-live calls (called_alone d call pool) fits.1 kept

  -- After calls on a new handle, one after the other, each of which may panic, where no addition is
  -- of a transaction whose nonce is the last `u64`: the mutexes are not poisoned, and the pool is
  -- what the same calls leave of a pool without mutexes.
  pub all_called-lives :
      (calls : List (Call d))
      → All IsInRange calls
      → all_called d calls new
        ≡ record { pool = all_called_alone d calls Mempool.new; poisoned = false }
  unfolding new Mempool.new
  all_called-lives calls fits = all_called-live calls Mempool.new fits tt
