-- ===== src/Dict/Entries.antt =====
-- Predicates on the entries of a `Dict`, key and value.
use gravity_kvstore.Prelude.{◌≡◌, some, [], ◌∷◌, Eq, arith, All, Bool-cases, inl, inr, subst}
use gravity_kvstore.Dict.{Dict, lookup, insert, remove}

module _ {ℓ κ μ} {K : Type ℓ} {V : Type κ} ⦃e : Eq K⦄ (P : K × V → Type μ) where
  pub All-lookup : (k : K) (v : V) (d : Dict K V) → All P d → lookup k d ≡ some v → P (k, v)
  All-lookup k v [] h found = cc
  All-lookup k v ((j, w) ∷ d) h found = elim (Bool-cases (e.beq j k)) [
    | inl here ↦ let same : (j, w) ≡ (k, v) = ground (arith, e.beq_iff j k) in subst P same h.0
    | inr there ↦ let rest : lookup k d ≡ some v = ground arith in All-lookup k v d h.1 rest
  ]

  pub All-insert : (k : K) (v : V) (d : Dict K V) → All P d → P (k, v) → All P (insert k v d)
  All-insert k v [] h p = (p, tt)
  All-insert k v ((j, w) ∷ d) h p = elim (Bool-cases (e.beq j k)) [
    | inl here ↦
        let same : (k, v) ≡ (j, v) = ground (arith, e.beq_iff j k) in rw here (subst P same p, h.1)
    | inr there ↦ rw there (h.0, All-insert k v d h.1 p)
  ]

  pub All-remove : (k : K) (d : Dict K V) → All P d → All P (remove k d)
  All-remove k [] h = tt
  All-remove k ((j, w) ∷ d) h = elim (Bool-cases (e.beq j k)) [
    | inl here ↦ rw here (All-remove k d h.1)
    | inr there ↦ rw there (h.0, All-remove k d h.1)
  ]
