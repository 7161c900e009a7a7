-- ===== src/Dict/Laws.antt =====
-- The laws of `Dict`.
use gravity_kvstore.Prelude.{
  ◌≡◌, refl, none, some, [], ◌∷◌, Eq, if◌then◌else◌, arith, All, Bool-cases, inl, inr, subst,
}
use gravity_kvstore.Dict.{Dict, lookup, insert, remove}

module _ {ℓ κ} {K : Type ℓ} {V : Type κ} ⦃e : Eq K⦄ where
  pub lookup-insert :
      (k j : K) (v : V) (d : Dict K V)
      → lookup j (insert k v d) ≡ (if e.beq k j then some v else lookup j d)
  lookup-insert k j v [] = refl
  lookup-insert k j v ((i, w) ∷ d) =
      ground (arith, e.beq_iff i k, e.beq_iff i j, e.beq_iff k j, lookup-insert k j v d)

  pub lookup-remove :
      (k j : K) (d : Dict K V) → lookup j (remove k d) ≡ (if e.beq k j then none else lookup j d)
  lookup-remove k j [] = ground arith
  lookup-remove k j ((i, w) ∷ d) =
      ground (arith, e.beq_iff i k, e.beq_iff i j, e.beq_iff k j, lookup-remove k j d)

module _ {ℓ κ μ} {K : Type ℓ} {V : Type κ} ⦃e : Eq K⦄ (Q : V → Type μ) where
  -- Every value satisfies `Q`.
  abbrev pub AllValues : Dict K V → Type μ
  AllValues = All (λ p. Q p.1)

  pub AllValues-lookup : (k : K) (v : V) (d : Dict K V) → AllValues d → lookup k d ≡ some v → Q v
  AllValues-lookup k v [] h found = cc
  AllValues-lookup k v ((j, w) ∷ d) h found = elim (Bool-cases (e.beq j k)) [
    | inl here ↦ let same : w ≡ v = ground arith in subst Q same h.0
    | inr there ↦ let rest : lookup k d ≡ some v = ground arith in AllValues-lookup k v d h.1 rest
  ]

  pub AllValues-insert :
      (k : K) (v : V) (d : Dict K V) → AllValues d → Q v → AllValues (insert k v d)
  AllValues-insert k v [] h q = (q, tt)
  AllValues-insert k v ((j, w) ∷ d) h q = elim (Bool-cases (e.beq j k)) [
    | inl here ↦ rw here (q, h.1)
    | inr there ↦ rw there (h.0, AllValues-insert k v d h.1 q)
  ]
