-- ===== src/Dict.antt =====
-- `std::collections::HashMap` as the list of its entries, in the order in which it holds them.
pub mod Laws
pub mod Entries
use gravity_kvstore.Prelude.{
  ℕ, Bool, Option, none, some, List, [], ◌∷◌, Eq, if◌then◌else◌, true, false,
}

abbrev pub Dict {ℓ κ} : Type ℓ → Type κ → Type (ℓ ⊔ κ)
Dict K V = List (K × V)

module _ {ℓ κ} {K : Type ℓ} {V : Type κ} ⦃e : Eq K⦄ where
  -- `map.get(k)`
  abbrev pub lookup : K → Dict K V → Option V
  lookup k [] = none
  lookup k ((j, v) ∷ d) = if e.beq j k then some v else lookup k d

  -- `map.insert(k, v)`: the value under a known key is replaced.
  abbrev pub insert : K → V → Dict K V → Dict K V
  insert k v [] = (k, v) ∷ []
  insert k v ((j, w) ∷ d) = if e.beq j k then (j, v) ∷ d else (j, w) ∷ insert k v d

  -- `map.remove(k)`: what is left.
  abbrev pub remove : K → Dict K V → Dict K V
  remove k [] = []
  remove k ((j, w) ∷ d) = let rest = remove k d in if e.beq j k then rest else (j, w) ∷ rest
