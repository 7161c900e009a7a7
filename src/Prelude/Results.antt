-- ===== src/Prelude/Results.antt =====
-- What a call does: it returns, it returns an `Err`, or it panics. A function that does not
-- return a `Result` has an error type that is never used.
use mathlib.Core.Path.{◌≡◌, refl}
use mathlib.Core.Logic.{◌⊎◌, inl, inr}
use mathlib.Core.Option.{Option, none, some}

pub data Outcome {ℓ κ} (E : Type ℓ) (A : Type κ) : Type (ℓ ⊔ κ) where
  ok : A → Outcome E A
  err : E → Outcome E A
  panic : Outcome E A

infixl 5 ◌>>=◌
abbrev pub ◌>>=◌ {ℓ κ μ} :
    {E : Type ℓ} {A : Type κ} {B : Type μ} → Outcome E A → (A → Outcome E B) → Outcome E B
panic >>= next = panic
err e >>= next = err e
ok a >>= next = next a

-- `.unwrap()` and `.expect(…)` of a `Result`.
abbrev pub unwrap {ℓ κ μ} : {E : Type ℓ} {F : Type κ} {A : Type μ} → Outcome E A → Outcome F A
unwrap (ok a) = ok a
unwrap (err e) = panic
unwrap panic = panic

-- `.unwrap()` of an `Option`.
abbrev pub unwrap_some {ℓ κ} : {E : Type ℓ} {A : Type κ} → Option A → Outcome E A
unwrap_some none = panic
unwrap_some (some a) = ok a

-- `.map_err(f)`.
abbrev pub map_err {ℓ κ μ} :
    {E : Type ℓ} {F : Type κ} {A : Type μ} → (E → F) → Outcome E A → Outcome F A
map_err f (ok a) = ok a
map_err f (err e) = err (f e)
map_err f panic = panic

pub Outcome-cases {ℓ κ} :
    {E : Type ℓ} {A : Type κ} (o : Outcome E A)
    → ((a : A) × (o ≡ ok a)) ⊎ ((e : E) × (o ≡ err e)) ⊎ (o ≡ panic)
Outcome-cases (ok a) = inl (a, refl)
Outcome-cases (err e) = inr (inl (e, refl))
Outcome-cases panic = inr (inr refl)

-- `.ok_or(e)`.
abbrev pub ok_or {ℓ κ} : {E : Type ℓ} {A : Type κ} → E → Option A → Outcome E A
ok_or e none = err e
ok_or e (some a) = ok a

pub ok-inj {ℓ κ} : {E : Type ℓ} {A : Type κ} {a b : A} → ◌≡◌ {A = Outcome E A} (ok a) (ok b) → a ≡ b
ok-inj h = cc

module _ {ℓ κ μ} {E : Type ℓ} {A : Type κ} {B : Type μ} where
  -- Inversion of a successful bind.
  pub >>=-eq-ok :
      (m : Outcome E A) (f : A → Outcome E B) {b : B}
      → (m >>= f) ≡ ok b
      → (a : A) × (m ≡ ok a) × (f a ≡ ok b)
  >>=-eq-ok panic f h = cc
  >>=-eq-ok (err e) f h = cc
  >>=-eq-ok (ok a) f h = (a, refl, h)

-- The next step of a call that works on a store `S`: what was written before an error or a panic
-- stays written.
abbrev pub continue {ℓ κ μ ν} :
    {E : Type ℓ} {A : Type κ} {B : Type μ} {S : Type ν}
    → Outcome E A × S
    → (A → S → Outcome E B × S)
    → Outcome E B × S
continue (ok a, s) f = f a s
continue (err e, s) f = (err e, s)
continue (panic, s) f = (panic, s)

-- A call that works on a part `T` of a store `S`.
abbrev pub lift_at {ℓ κ μ ν} :
    {E : Type ℓ} {A : Type κ} {T : Type μ} {S : Type ν}
    → (T → S)
    → Outcome E A × T
    → Outcome E A × S
lift_at put (result, t) = (result, put t)

-- Inversion of a successful next step.
pub continue-eq-ok {ℓ κ μ ν} :
    {E : Type ℓ} {A : Type κ} {B : Type μ} {S : Type ν} (p : Outcome E A × S)
    (f : A → S → Outcome E B × S) {b : B} {s' : S}
    → continue p f ≡ (ok b, s')
    → (a : A) × (s : S) × (p ≡ (ok a, s)) × (f a s ≡ (ok b, s'))
continue-eq-ok (ok a, s) f h = (a, s, refl, h)
continue-eq-ok (err e, s) f h = cc
continue-eq-ok (panic, s) f h = cc

-- A predicate that both steps keep.
pub continue-keeps {ℓ κ μ ν ξ} :
    {E : Type ℓ} {A : Type κ} {B : Type μ} {S : Type ν} (P : S → Type ξ) (p : Outcome E A × S)
    (f : A → S → Outcome E B × S)
    → P p.1
    → ((a : A) (s : S) → P s → P (f a s).1)
    → P (continue p f).1
continue-keeps P (ok a, s) f h keep = keep a s h
continue-keeps P (err e, s) f h keep = h
continue-keeps P (panic, s) f h keep = h
