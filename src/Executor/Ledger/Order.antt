-- ===== src/Executor/Ledger/Order.antt =====
-- The order of the transactions of executor/executor.rs that set a key: the pool hands them out in
-- the order of a hash map of senders.
use gravity_kvstore.Prelude.{
  ◌≡◌, ◌≢◌, refl, sym, ◌∙◌, ap, fun_ext, Text, bytes_eq, bytes_beq_iff, Option, none, some, arith,
  trichotomy, inl, inr,
}
use gravity_kvstore.Types.{TransactionKind, transfer, set_kv, UnsignedTransaction}
use gravity_kvstore.Executor.Ledger.{Holder, Ledger, known_or, granted, put, next, move, and_then}

abbrev pub SetsKey : TransactionKind → Type 0
SetsKey (transfer receiver amount) = ⊥
SetsKey (set_kv key value) = Unit

-- What a transaction that sets a key does: it reads and writes nobody but its sender.
data Effect : Type 0 where
  stays fails : Effect
  writes : Holder → Effect

abbrev apply : Effect → Text → Ledger → Option Ledger
apply stays a ledger = some ledger
apply fails a ledger = none
apply (writes h) a ledger = some (put a h ledger)

set_effect :
    (kind : TransactionKind) (a : Text) (from : Holder)
    → SetsKey kind
    → (e : Effect) × ((ledger : Ledger) → move kind a from ledger ≡ apply e a ledger)
set_effect (transfer receiver amount) a from h = absurd h
set_effect (set_kv key value) a from h = (writes _, λ ledger. refl)

next_effect :
    (tx : UnsignedTransaction) (a : Text) (ledger : Ledger)
    → SetsKey tx.kind
    → (e : Effect) × ((other : Ledger) → other a ≡ ledger a → next tx a other ≡ apply e a other)
next_effect tx a ledger h =
    let from = known_or granted (ledger a) in
    elim (trichotomy tx.nonce from.nonce) [
      | inl less ↦ (stays, λ other same. rw same (ground arith))
      | inr (inl more) ↦ (fails, λ other same. rw same (ground arith))
      | inr (inr now) ↦
          let (e, does) = set_effect tx.kind a from h in
          (e, λ other same. rw same (ground (arith, does other)))
    ]

put-put :
    (a b : Text) (h k : Holder) (ledger : Ledger)
    → a ≢ b
    → put a h (put b k ledger) ≡ put b k (put a h ledger)
put-put a b h k ledger apart = fun_ext λ c. ground (arith, bytes_beq_iff a c, bytes_beq_iff b c)

apply-apply :
    (e f : Effect) (a b : Text) (ledger : Ledger)
    → a ≢ b
    → and_then (apply e a ledger) (apply f b) ≡ and_then (apply f b ledger) (apply e a)
apply-apply stays stays a b ledger apart = refl
apply-apply stays fails a b ledger apart = refl
apply-apply stays (writes k) a b ledger apart = refl
apply-apply fails stays a b ledger apart = refl
apply-apply fails fails a b ledger apart = refl
apply-apply fails (writes k) a b ledger apart = refl
apply-apply (writes h) stays a b ledger apart = refl
apply-apply (writes h) fails a b ledger apart = refl
apply-apply (writes h) (writes k) a b ledger apart = ap some (sym (put-put a b h k ledger apart))

-- After it, another holder is as before.
then-apply :
    (e : Effect) (a b : Text) (ledger : Ledger) (f g : Ledger → Option Ledger)
    → a ≢ b
    → ((other : Ledger) → other b ≡ ledger b → f other ≡ g other)
    → and_then (apply e a ledger) f ≡ and_then (apply e a ledger) g
then-apply stays a b ledger f g apart same = same ledger refl
then-apply fails a b ledger f g apart same = refl
then-apply (writes h) a b ledger f g apart same =
    same (put a h ledger) (ground (arith, bytes_beq_iff a b))

-- Two of different senders.
pub next-next :
    (t u : UnsignedTransaction) (a b : Text) (ledger : Ledger)
    → SetsKey t.kind
    → SetsKey u.kind
    → a ≢ b
    → and_then (next t a ledger) (next u b) ≡ and_then (next u b ledger) (next t a)
next-next t u a b ledger st su apart =
    let (e, does_t) = next_effect t a ledger st in
    let (f, does_u) = next_effect u b ledger su in
    let first = then-apply e a b ledger (next u b) (apply f b) apart does_u in
    let second = then-apply f b a ledger (next t a) (apply e a) (λ q. apart (sym q)) does_t in
    ap (λ o. and_then o (next u b)) (does_t ledger refl)
    ∙ first
    ∙ apply-apply e f a b ledger apart
    ∙ sym (ap (λ o. and_then o (next t a)) (does_u ledger refl) ∙ second)
