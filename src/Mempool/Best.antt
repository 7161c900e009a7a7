-- ===== src/Mempool/Best.antt =====
-- `best_txns` of txpool/mempool.rs does not read the status of an entry.
use gravity_kvstore.Prelude.{◌≡◌, refl, Bytes, [], ◌∷◌}
use gravity_kvstore.Dict.{Dict}
use gravity_kvstore.BTree.{BTree}
use gravity_kvstore.Types.Deps.{Deps}
use gravity_kvstore.Mempool.{
  TxnStatus, MempoolTxn, Pool, Filter, best_of_account, best_of_all, best_txns,
}

module _ (status_of : MempoolTxn → TxnStatus) where
  -- The same entries with other statuses.
  abbrev pub restatus_entries : BTree MempoolTxn → BTree MempoolTxn
  restatus_entries [] = []
  restatus_entries ((k, txn) ∷ txns) =
      (k, record txn { status = status_of txn }) ∷ restatus_entries txns

  abbrev pub restatus_all : Dict Bytes (BTree MempoolTxn) → Dict Bytes (BTree MempoolTxn)
  restatus_all [] = []
  restatus_all ((a, txns) ∷ more) = (a, restatus_entries txns) ∷ restatus_all more

  abbrev pub restatus : Pool → Pool
  restatus pool = record pool { mempool = restatus_all pool.mempool }

  module _ (d : Deps) (E : Type 0) (filter : Filter) where
    best_of_account-restatus :
        (a : Bytes) (txns : BTree MempoolTxn)
        → best_of_account d {E = E} filter a (restatus_entries txns)
          ≡ best_of_account d filter a txns
    unfolding best_of_account
    best_of_account-restatus a [] = refl
    best_of_account-restatus a ((k, txn) ∷ txns) = simp (best_of_account-restatus a txns)

    best_of_all-restatus :
        (all : Dict Bytes (BTree MempoolTxn))
        → best_of_all d {E = E} filter (restatus_all all) ≡ best_of_all d filter all
    unfolding best_of_all
    best_of_all-restatus [] = refl
    best_of_all-restatus ((a, txns) ∷ more) =
        simp (best_of_account-restatus, best_of_all-restatus more)

    -- Whatever statuses the entries of a pool are given, `best_txns` hands out the same
    -- transactions: a waiting one is not held back.
    pub best_txns-restatus :
        (pool : Pool) → best_txns d {E = E} filter (restatus pool) ≡ best_txns d filter pool
    unfolding best_txns
    best_txns-restatus pool = best_of_all-restatus pool.mempool
