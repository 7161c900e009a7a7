-- ===== src/Prelude/Machine.antt =====
-- Machine integers as native numbers. An operation that leaves the range panics in a build with
-- overflow checks (the debug profile) and wraps in one without (the release profile).
use Prim.Native.Nat.{ℕ, ◌+◌, ◌-◌, ◌%◌}
use mathlib.Core.Bool.{Bool}
use gravity_kvstore.Prelude.Tests.{ltb, leb, if◌then◌else◌}
use gravity_kvstore.Prelude.Results.{Outcome, ok, panic}

abbrev pub u8_mod : ℕ
u8_mod = 256

abbrev pub u64_mod : ℕ
u64_mod = 18446744073709551616

module _ {ℓ} {E : Type ℓ} where
  -- `a + b` at the width with modulus `m`.
  abbrev pub add_wrap : Bool → ℕ → ℕ → ℕ → Outcome E ℕ
  add_wrap checks m a b =
      if ltb (a + b) m then ok (a + b) else if checks then panic else ok ((a + b) % m)

  -- `a - b` at the width with modulus `m`.
  abbrev pub sub_wrap : Bool → ℕ → ℕ → ℕ → Outcome E ℕ
  sub_wrap checks m a b =
      if leb b a then ok (a - b) else if checks then panic else ok ((a + m - b) % m)
