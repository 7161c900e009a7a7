-- ===== src/Mempool/Order.antt =====
-- Two additions to the pool of txpool/mempool.rs, in either order.
use gravity_kvstore.Prelude.{
  ℕ, ◌+◌, ◌≤◌, ◌<◌, ◌≡◌, refl, sym, ◌∙◌, Bytes, bytes_eq, bytes_beq_refl, Bool, true, false, some,
  none, Option, ok, arith, u64_mod, ◌||◌, ◌==◌, [], trichotomy, inl, inr,
}
use gravity_kvstore.Dict
use gravity_kvstore.BTree
use gravity_kvstore.BTree.{BTree}
use gravity_kvstore.BTree.Laws.{lookup-insert}
use gravity_kvstore.Types.{TransactionWithAccount}
use gravity_kvstore.Types.Deps.{Deps}
use gravity_kvstore.Types.Convert.{sequence_number}
use gravity_kvstore.Mempool.{MempoolTxn, Pool, add_raw_txn, raw_txn_key, or_insert, waiting}
use gravity_kvstore.Mempool.Promote.{mark_pending}
use gravity_kvstore.Mempool.WellFormed.{IsWellFormed, add_raw_txn-IsWellFormed}
use gravity_kvstore.Mempool.Add.{entries_with, mark_of, add_raw_txn-marks, add_raw_txn-covers}

abbrev pub is_some {ℓ} : {A : Type ℓ} → Option A → Bool
is_some none = false
is_some (some a) = true

is_some-mark_pending : (o : Option MempoolTxn) → is_some (mark_pending o) ≡ is_some o
is_some-mark_pending none = refl
is_some-mark_pending (some txn) = refl

-- The account has an entry under the number.
abbrev pub present : Bytes → ℕ → Pool → Bool
present a n pool = is_some (BTree.lookup n (or_insert [] (Dict.lookup a pool.mempool)))

module _ (d : Deps) (E : Type 0) (txn : TransactionWithAccount) (pool : Pool) (a hash : Bytes)
    (w : IsWellFormed pool) (fits : sequence_number txn + 1 < u64_mod)
    (key : raw_txn_key d {E = E} txn ≡ ok (a, hash)) where
  abbrev added : Pool
  added = (add_raw_txn d {E = E} txn pool).1

  present-entries_with :
      (n : ℕ)
      → is_some (BTree.lookup n (entries_with a txn pool))
        ≡ (n == sequence_number txn || present a n pool)
  present-entries_with n = ground (
    arith,
    lookup-insert (sequence_number txn) n (record { raw_txn = txn; status = waiting })
        (or_insert [] (Dict.lookup a pool.mempool)),
  )

  present-added : (n : ℕ) → present a n added ≡ (n == sequence_number txn || present a n pool)
  present-added n =
      let (mark, after, _, _, found, _, _, at) =
        add_raw_txn-marks d E txn pool a hash n a w fits key in
      let here : Dict.lookup a added.mempool ≡ some after = ground (arith, bytes_beq_refl a) in
      let shown : present a n added ≡ is_some (BTree.lookup n after) = rw here refl in
      let marked : is_some (BTree.lookup n after)
          ≡ is_some (BTree.lookup n (entries_with a txn pool)) =
        ground (arith, is_some-mark_pending (BTree.lookup n (entries_with a txn pool))) in
      shown ∙ marked ∙ present-entries_with n

  mark-added : (mark_of a pool ≤ mark_of a added) × (present a (mark_of a added) added ≡ false)
  mark-added =
      let (mark, _, _, put, _, up, gap, _) = add_raw_txn-marks d E txn pool a hash 0 a w fits key in
      let here : Dict.lookup a added.water_mark ≡ some mark = ground (arith, bytes_beq_refl a) in
      let same : mark_of a added ≡ mark = rw here refl in
      (
        omega arith,
        present-added (mark_of a added)
            ∙ sym (present-entries_with (mark_of a added))
            ∙ rw (same, gap) refl,
      )

  covers-added : (n : ℕ) → mark_of a pool ≤ n → n < mark_of a added → present a n added ≡ true
  covers-added n from below =
      let (entry, found) = add_raw_txn-covers d E txn pool a hash n w fits key from below in
      present-added n ∙ sym (present-entries_with n) ∙ rw found refl

module _ (d : Deps) (E : Type 0) (t₁ t₂ : TransactionWithAccount) (pool : Pool)
    (a hash₁ hash₂ : Bytes) (w : IsWellFormed pool) (fits₁ : sequence_number t₁ + 1 < u64_mod)
    (fits₂ : sequence_number t₂ + 1 < u64_mod) (key₁ : raw_txn_key d {E = E} t₁ ≡ ok (a, hash₁))
    (key₂ : raw_txn_key d {E = E} t₂ ≡ ok (a, hash₂)) where
  abbrev first : Pool
  first = added d E t₁ pool a hash₁ w fits₁ key₁

  first-IsWellFormed : IsWellFormed first
  first-IsWellFormed = add_raw_txn-IsWellFormed d E t₁ pool fits₁ w

  abbrev both : Pool
  both = added d E t₂ first a hash₂ first-IsWellFormed fits₂ key₂

  mark-both : (mark_of a pool ≤ mark_of a both) × (present a (mark_of a both) both ≡ false)
  mark-both =
      let (up, _) = mark-added d E t₁ pool a hash₁ w fits₁ key₁ in
      let (up', gap) = mark-added d E t₂ first a hash₂ first-IsWellFormed fits₂ key₂ in
      (omega arith, gap)

  present-both :
      (n : ℕ)
      → present a n both
        ≡ (n == sequence_number t₂ || (n == sequence_number t₁ || present a n pool))
  present-both n =
      present-added d E t₂ first a hash₂ first-IsWellFormed fits₂ key₂ n
      ∙ rw (present-added d E t₁ pool a hash₁ w fits₁ key₁ n) refl

  covers-both : (n : ℕ) → mark_of a pool ≤ n → n < mark_of a both → present a n both ≡ true
  covers-both n from below = elim (trichotomy n (mark_of a first)) [
    | inl before ↦ ground (
      arith,
      present-added d E t₂ first a hash₂ first-IsWellFormed fits₂ key₂ n,
      covers-added d E t₁ pool a hash₁ w fits₁ key₁ n from before,
    )
    | inr rest ↦
        covers-added d E t₂ first a hash₂ first-IsWellFormed fits₂ key₂ n (omega arith) below
  ]

module _ (d : Deps) (E : Type 0) where
  -- Two transactions of one account, neither with the last `u64` for its nonce, that convert and
  -- can be hashed, put into a well formed pool in either order, leave the same water mark for the
  -- account, and entries under the same numbers.
  pub add_raw_txn-order :
      (t u : TransactionWithAccount) (pool : Pool) (a hash hash' : Bytes) (n : ℕ)
      → IsWellFormed pool
      → sequence_number t + 1 < u64_mod
      → sequence_number u + 1 < u64_mod
      → raw_txn_key d {E = E} t ≡ ok (a, hash)
      → raw_txn_key d {E = E} u ≡ ok (a, hash')
      → let there = (add_raw_txn d {E = E} u (add_raw_txn d {E = E} t pool).1).1 in
        let back = (add_raw_txn d {E = E} t (add_raw_txn d {E = E} u pool).1).1 in
        (mark_of a there ≡ mark_of a back) × (present a n there ≡ present a n back)
  add_raw_txn-order t u pool a hash hash' n w ft fu kt ku =
      let there = (add_raw_txn d {E = E} u (add_raw_txn d {E = E} t pool).1).1 in
      let back = (add_raw_txn d {E = E} t (add_raw_txn d {E = E} u pool).1).1 in
      let same : (k : ℕ) → present a k there ≡ present a k back = λ k. ground (
        arith,
        present-both d E t u pool a hash hash' w ft fu kt ku k,
        present-both d E u t pool a hash' hash w fu ft ku kt k,
      ) in
      let (up, gap) = mark-both d E t u pool a hash hash' w ft fu kt ku in
      let (up', gap') = mark-both d E u t pool a hash' hash w fu ft ku kt in
      (
        elim (trichotomy (mark_of a there) (mark_of a back)) [
          | inl less ↦ absurd (
              ground (
                arith,
                same (mark_of a there),
                covers-both d E u t pool a hash' hash w fu ft ku kt (mark_of a there) up less,
              ))
          | inr (inl more) ↦ absurd (
              ground (
                arith,
                same (mark_of a back),
                covers-both d E t u pool a hash hash' w ft fu kt ku (mark_of a back) up' more,
              ))
          | inr (inr e) ↦ e
        ],
        same n,
      )
