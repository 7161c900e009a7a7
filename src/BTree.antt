-- ===== src/BTree.antt =====
-- `std::collections::BTreeMap` with `u64` keys, as the list of its entries in ascending order.
pub mod Laws
use gravity_kvstore.Prelude.{
  ℕ, ◌+◌, ◌≤◌, ltb, ◌==◌, Option, none, some, List, [], ◌∷◌, if◌then◌else◌,
}

abbrev pub BTree {ℓ} : Type ℓ → Type ℓ
BTree V = List (ℕ × V)

module _ {ℓ} {V : Type ℓ} where
  abbrev pub lookup : ℕ → BTree V → Option V
  lookup k [] = none
  lookup k ((j, v) ∷ t) = if k == j then some v else lookup k t

  abbrev pub insert : ℕ → V → BTree V → BTree V
  insert k v [] = (k, v) ∷ []
  insert k v ((j, w) ∷ t) =
      if k == j then (k, v) ∷ t else if ltb k j then (k, v) ∷ (j, w) ∷ t else (j, w) ∷ insert k v t

  abbrev pub remove : ℕ → BTree V → BTree V
  remove k [] = []
  remove k ((j, w) ∷ t) = if k == j then t else (j, w) ∷ remove k t

  -- The keys ascend from `lo` on.
  abbrev pub IsSortedFrom : ℕ → BTree V → Type 0
  IsSortedFrom lo [] = Unit
  IsSortedFrom lo ((k, v) ∷ t) = (lo ≤ k) × IsSortedFrom (k + 1) t

  abbrev pub IsSorted : BTree V → Type 0
  IsSorted = IsSortedFrom 0
