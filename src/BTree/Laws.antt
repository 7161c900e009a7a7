-- ===== src/BTree/Laws.antt =====
-- The laws of `BTree`: the order of the keys is kept, and lookups after an update.
use gravity_kvstore.Prelude.{
  ℕ, ◌+◌, ◌≤◌, ◌<◌, ◌≡◌, refl, ◌==◌, none, some, [], ◌∷◌, if◌then◌else◌, arith,
}
use gravity_kvstore.BTree.{BTree, lookup, insert, remove, IsSortedFrom}

module _ {ℓ} {V : Type ℓ} where
  pub IsSortedFrom-weaken :
      (lo lo' : ℕ) (t : BTree V) → lo' ≤ lo → IsSortedFrom lo t → IsSortedFrom lo' t
  IsSortedFrom-weaken lo lo' [] h s = tt
  IsSortedFrom-weaken lo lo' ((k, v) ∷ t) h s = (omega arith, s.1)

  pub lookup-below : (lo k : ℕ) (t : BTree V) → IsSortedFrom lo t → k < lo → lookup k t ≡ none
  lookup-below lo k [] s h = refl
  lookup-below lo k ((j, v) ∷ t) s h = ground (arith, lookup-below (j + 1) k t s.1 (omega arith))

  pub insert-IsSortedFrom :
      (lo k : ℕ) (v : V) (t : BTree V) → IsSortedFrom lo t → lo ≤ k → IsSortedFrom lo (insert k v t)
  insert-IsSortedFrom lo k v [] s h = (h, tt)
  insert-IsSortedFrom lo k v ((j, w) ∷ t) s h =
      ground (arith, insert-IsSortedFrom (j + 1) k v t s.1)

  pub remove-IsSortedFrom :
      (lo k : ℕ) (t : BTree V) → IsSortedFrom lo t → IsSortedFrom lo (remove k t)
  remove-IsSortedFrom lo k [] s = tt
  remove-IsSortedFrom lo k ((j, w) ∷ t) s = ground (
    arith,
    remove-IsSortedFrom (j + 1) k t s.1,
    IsSortedFrom-weaken (j + 1) lo t (omega arith) s.1,
  )

  pub lookup-insert :
      (k j : ℕ) (v : V) (t : BTree V)
      → lookup j (insert k v t) ≡ (if j == k then some v else lookup j t)
  lookup-insert k j v [] = refl
  lookup-insert k j v ((i, w) ∷ t) = ground (arith, lookup-insert k j v t)

  pub lookup-remove :
      (lo k j : ℕ) (t : BTree V)
      → IsSortedFrom lo t
      → lookup j (remove k t) ≡ (if j == k then none else lookup j t)
  lookup-remove lo k j [] s = ground arith
  lookup-remove lo k j ((i, w) ∷ t) s =
      ground (arith, lookup-remove (i + 1) k j t s.1, lookup-below (i + 1) j t s.1)
