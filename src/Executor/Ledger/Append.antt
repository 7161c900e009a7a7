-- ===== src/Executor/Ledger/Append.antt =====
-- The ledger of one list of transactions after another's.
use gravity_kvstore.Prelude.{
  ◌≡◌, refl, sym, ◌∙◌, ap, fun_ext, Text, Option, none, some, List, [], ◌∷◌, ◌++◌,
}
use gravity_kvstore.Types.{UnsignedTransaction}
use gravity_kvstore.Executor.Ledger.{Ledger, next_from, and_then, all}

pub and_then_assoc :
    (o : Option Ledger) (f g : Ledger → Option Ledger)
    → and_then (and_then o f) g ≡ and_then o (λ l. and_then (f l) g)
and_then_assoc none f g = refl
and_then_assoc (some l) f g = refl

pub and_then-some : (o : Option Ledger) → and_then o some ≡ o
and_then-some none = refl
and_then-some (some l) = refl

pub all-append :
    (txs txs' : List (Option Text × UnsignedTransaction)) (l : Ledger)
    → all (txs ++ txs') l ≡ and_then (all txs l) (all txs')
all-append [] txs' l = refl
all-append ((sender, tx) ∷ txs) txs' l =
    ap (and_then (next_from sender tx l)) (fun_ext (all-append txs txs'))
    ∙ sym (and_then_assoc (next_from sender tx l) (all txs) (all txs'))
