-- ===== src/Mempool/Promote.antt =====
-- The loop of `process_txn` of txpool/mempool.rs: it walks the run of numbers that begins at the
-- water mark.
use gravity_kvstore.Prelude.{
  ℕ, ◌+◌, ◌≤◌, ◌<◌, ◌≡◌, refl, Bool, ◌&&◌, leb, ltb, if◌then◌else◌, Option, none, some, [], ◌∷◌, ok,
  arith, All, u64_mod, trichotomy, eq_or_ne, inl, inr,
}
use gravity_kvstore.BTree.{BTree, lookup, IsSortedFrom}
use gravity_kvstore.BTree.Laws.{lookup-below}
use gravity_kvstore.Types.Convert.{sequence_number}
use gravity_kvstore.Mempool.{MempoolTxn, pending, promote}

-- An entry stands under its own nonce, which is not the last `u64`.
abbrev pub IsKeyed : ℕ × MempoolTxn → Type 0
IsKeyed e = (sequence_number e.1.raw_txn ≡ e.0) × (e.0 + 1 < u64_mod)

abbrev pub mark_pending : Option MempoolTxn → Option MempoolTxn
mark_pending none = none
mark_pending (some txn) = some (record txn { status = pending })

module _ (E : Type 0) (checks : Bool) where
  -- Entries past the number are left alone.
  promote-above :
      (lo : ℕ) (txns : BTree MempoolTxn) (seq : ℕ)
      → IsSortedFrom lo txns
      → All IsKeyed txns
      → seq < lo
      → promote {E = E} checks txns seq ≡ (ok tt, seq, txns)
  unfolding promote
  promote-above lo [] seq s keyed h = refl
  promote-above lo ((k, txn) ∷ txns) seq s keyed h =
      ground (arith, promote-above (k + 1) txns seq s.1 keyed.1)

  -- On ascending entries that stand under their own nonces, none the last `u64`, the loop does not
  -- panic, its number does not fall, and it ends at one that has no entry.
  pub promote-end :
      (lo : ℕ) (txns : BTree MempoolTxn) (seq : ℕ)
      → IsSortedFrom lo txns
      → All IsKeyed txns
      → let (done, seq', _) = promote {E = E} checks txns seq in
        (done ≡ ok tt) × (seq ≤ seq') × (lookup seq' txns ≡ none)
  unfolding promote
  promote-end lo [] seq s keyed = (refl, omega arith, refl)
  promote-end lo ((k, txn) ∷ txns) seq s keyed = elim (trichotomy seq k) [
    | inl before ↦
        ground
          (arith, promote-above (k + 1) txns seq s.1 keyed.1, lookup-below (k + 1) seq txns s.1)
    | inr (inl past) ↦ ground (arith, promote-end (k + 1) txns seq s.1 keyed.1)
    | inr (inr same) ↦ ground (arith, promote-end (k + 1) txns (seq + 1) s.1 keyed.1)
  ]

  -- On ascending entries that stand under their own nonces, none the last `u64`, every number from
  -- the one at which the loop begins up to the one at which it ends has an entry.
  pub promote-covers :
      (lo : ℕ) (txns : BTree MempoolTxn) (seq n : ℕ)
      → IsSortedFrom lo txns
      → All IsKeyed txns
      → seq ≤ n
      → n < (promote {E = E} checks txns seq).1
      → (txn : MempoolTxn) × (lookup n txns ≡ some txn)
  unfolding promote
  promote-covers lo [] seq n s keyed h below = absurd (omega arith)
  promote-covers lo ((k, txn) ∷ txns) seq n s keyed h below = elim (trichotomy seq k) [
    | inl before ↦ absurd (ground (arith, promote-above (k + 1) txns seq s.1 keyed.1))
    | inr (inl past) ↦
        let b : n < (promote {E = E} checks txns seq).1 = ground arith in
        let (found, e) = promote-covers (k + 1) txns seq n s.1 keyed.1 h b in (found, ground arith)
    | inr (inr same) ↦ elim (eq_or_ne n k) [
      | inl at ↦ (txn, ground arith)
      | inr later ↦
          let b : n < (promote {E = E} checks txns (seq + 1)).1 = ground arith in
          let (found, e) = promote-covers (k + 1) txns (seq + 1) n s.1 keyed.1 (omega arith) b in
          (found, ground arith)
    ]
  ]

  -- On ascending entries that stand under their own nonces, none the last `u64`, the loop makes
  -- pending those from the number at which it begins up to the one at which it ends, and leaves
  -- the others as they are.
  pub lookup-promote :
      (lo : ℕ) (txns : BTree MempoolTxn) (seq n : ℕ)
      → IsSortedFrom lo txns
      → All IsKeyed txns
      → let (_, seq', txns') = promote {E = E} checks txns seq in
        lookup n txns'
        ≡ (if leb seq n && ltb n seq' then mark_pending (lookup n txns) else lookup n txns)
  unfolding promote
  lookup-promote lo [] seq n s keyed = ground arith
  lookup-promote lo ((k, txn) ∷ txns) seq n s keyed = elim (trichotomy seq k) [
    | inl before ↦ ground (arith, promote-above (k + 1) txns seq s.1 keyed.1)
    | inr (inl past) ↦ ground (arith, lookup-promote (k + 1) txns seq n s.1 keyed.1)
    | inr (inr same) ↦ ground (
      arith,
      lookup-promote (k + 1) txns (seq + 1) n s.1 keyed.1,
      promote-end (k + 1) txns (seq + 1) s.1 keyed.1,
    )
  ]
