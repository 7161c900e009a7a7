-- ===== src/Mempool/Verified.antt =====
-- `add_verified_txn` of txpool/mempool.rs beside `add_raw_txn`.
use gravity_kvstore.Prelude.{arith, ◌≡◌, refl, ◌∙◌, Bytes, Outcome, ok, err, panic, ◌>>=◌, continue}
use gravity_kvstore.Types.{TransactionWithAccount}
use gravity_kvstore.Types.Deps.{Deps, JsonLaws, VerifiedLaws}
use gravity_kvstore.Types.Convert.{account, sequence_number, into_verified, from_verified}
use gravity_kvstore.Types.RoundTrip.{from_verified-into_verified}
use gravity_kvstore.Mempool.{Pool, add_txn, add_verified_txn, raw_txn_key, add_raw_txn}

-- Another answer where there is one.
abbrev pub answering {ℓ κ μ} :
    {E : Type ℓ} {A : Type κ} {S : Type μ} → A → Outcome E A × S → Outcome E A × S
answering a (o, s) = ((o >>= λ _. ok a), s)

continue-answering :
    {E : Type 0} (p : Outcome E (Unit {0}) × Pool) (a b : Bytes)
    → continue p (λ _ s. (ok a, s)) ≡ answering a (continue p λ _ s. (ok b, s))
continue-answering (ok tt, s) a b = refl
continue-answering (err e, s) a b = refl
continue-answering (panic, s) a b = refl

module _ (d : Deps) (E : Type 0) where
  pub account-raw_txn_key :
      (t : TransactionWithAccount) (sender hash : Bytes)
      → raw_txn_key d {E = E} t ≡ ok (sender, hash)
      → account d {E = E} t ≡ ok sender
  unfolding raw_txn_key
  account-raw_txn_key t sender hash key = ground arith

  add_verified_txn-eq :
      (v : d.VerifiedTxn) (t : TransactionWithAccount) (random : Bytes) (pool : Pool)
      → from_verified d {E = E} v ≡ ok t
      → add_verified_txn d {E = E} v random pool
        ≡ continue
            (add_txn d (d.verified_sender v) (d.verified_seq_number v) t pool)
            (λ _ p. (ok random, p))
  unfolding add_verified_txn
  add_verified_txn-eq v t random pool read = rw read refl

  add_raw_txn-eq :
      (t : TransactionWithAccount) (sender hash : Bytes) (pool : Pool)
      → raw_txn_key d {E = E} t ≡ ok (sender, hash)
      → add_raw_txn d {E = E} t pool
        ≡ continue (add_txn d sender (sequence_number t) t pool) (λ _ p. (ok hash, p))
  unfolding add_raw_txn
  add_raw_txn-eq t sender hash pool key = rw key refl

  -- With packages that keep their laws, a transaction whose address converts and which can be hashed
  -- comes to one pool in two ways: added as it is, or made into a verified one, as a pool hands it
  -- out, and added as that. Both leave the pool the same, and the second answers its random hash
  -- where the first answers the transaction's.
  pub add_verified_txn-add_raw_txn :
      (json : JsonLaws d) (verified : VerifiedLaws d) (t : TransactionWithAccount)
      (sender hash random : Bytes) (pool : Pool)
      → raw_txn_key d {E = E} t ≡ ok (sender, hash)
      → (v : d.VerifiedTxn) × (into_verified d {E = E} t ≡ ok v)
        × (add_verified_txn d {E = E} v random pool
            ≡ answering random (add_raw_txn d {E = E} t pool))
  add_verified_txn-add_raw_txn json verified t sender hash random pool key =
      let (v, into, from, seq, back) =
        from_verified-into_verified d json verified E t sender
          (account-raw_txn_key t sender hash key) in
      (
        v,
        into,
        add_verified_txn-eq v t random pool back
            ∙ rw (from, seq, add_raw_txn-eq t sender hash pool key)
                (continue-answering (add_txn d sender (sequence_number t) t pool) random hash),
      )
