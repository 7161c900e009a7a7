-- ===== src/Mempool/Concurrent.antt =====
-- The calls of txpool/mempool.rs as their locks let them mix: an addition takes the lock of the
-- entries twice, first to put its transaction in and then to process its account, and between the
-- two any step of any other call can come.
pub mod Settles
use gravity_kvstore.Prelude.{
  ℕ, ◌+◌, ◌≤◌, ◌<◌, ◌≡◌, refl, Bytes, bytes_eq, bytes_beq, bytes_beq_refl, bytes_beq_iff, subst,
  Bool, true, false, ◌||◌, Option, none, some, List, [], ◌∷◌, ◌++◌, ok, arith, u64_mod,
  Option-cases, ◌⊎◌, Bool-cases, inl, inr, ◌&&◌, leb, ltb, if◌then◌else◌,
}
use gravity_kvstore.Dict
use gravity_kvstore.Dict.Laws.{lookup-insert, AllValues-lookup}
use gravity_kvstore.BTree
use gravity_kvstore.BTree.{BTree}
use gravity_kvstore.BTree.Laws.{lookup-remove}
use gravity_kvstore.Types.{TransactionWithAccount}
use gravity_kvstore.Types.Deps.{Deps}
use gravity_kvstore.Types.Convert.{sequence_number, from_verified}
use gravity_kvstore.Mempool.{
  MempoolTxn, Pool, waiting, or_insert, remove_txn, put_txn, process_txn, promote, new, raw_txn_key,
}
use gravity_kvstore.Mempool.Promote.{promote-end, lookup-promote}
use gravity_kvstore.Mempool.WellFormed.{
  IsTree, IsWellFormed, put_txn-IsWellFormed, process_txn-IsWellFormed, remove_txn-IsWellFormed,
}
use gravity_kvstore.Mempool.Add.{mark_of}
use gravity_kvstore.Mempool.Order.{is_some, present}

-- The pool, and the accounts of the additions that are between their two steps.
pub record Shared : Type 0 where
  pub pool : Pool
  pub calls : List Bytes

-- Some addition to the account is between its two steps.
abbrev pub awaits : Bytes → List Bytes → Bool
awaits a [] = false
awaits a (b ∷ calls) = bytes_beq b a || awaits a calls

-- The first step of an addition.
abbrev pub put : Bytes → TransactionWithAccount → Shared → Shared
put a txn s = record {
  pool = put_txn a (sequence_number txn) (record { raw_txn = txn; status = waiting }) s.pool;
  calls = a ∷ s.calls;
}

module _ (d : Deps) (E : Type 0) where
  -- The second step, by one of the additions under way.
  abbrev pub process : List Bytes → Bytes → List Bytes → Pool → Shared
  process before a after pool = record {
    pool = (process_txn d {E = E} a pool).1;
    calls = before ++ after;
  }

  pub data Step : Shared → Shared → Type 0 where
    put_raw :
        (s : Shared) (txn : TransactionWithAccount) (a hash : Bytes)
        → raw_txn_key d {E = E} txn ≡ ok (a, hash)
        → sequence_number txn + 1 < u64_mod
        → Step s (put a txn s)
    put_verified :
        (s : Shared) (v : d.VerifiedTxn) (txn : TransactionWithAccount)
        → from_verified d {E = E} v ≡ ok txn
        → sequence_number txn ≡ d.verified_seq_number v
        → sequence_number txn + 1 < u64_mod
        → Step s (put (d.verified_sender v) txn s)
    finish :
        (before after : List Bytes) (a : Bytes) (pool : Pool)
        → Step (record { pool = pool; calls = before ++ a ∷ after }) (process before a after pool)
    remove :
        (s : Shared) (sender : Bytes) (seq : ℕ)
        → Step s (record s { pool = remove_txn sender seq s.pool })

  pub data Run (first : Shared) : Shared → Type 0 where
    start : Run first first
    next : {s s' : Shared} → Run first s → Step s s' → Run first s'
