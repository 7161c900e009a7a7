-- ===== src/Executor/Ledger/Refines.antt =====
-- The blocks of executor/executor.rs against the ledger.
use gravity_kvstore.Prelude.{
  some-injective, none-ne-some, ◌∙◌, ◌+◌, ◌*◌, ◌<◌, ◌≡◌, refl, sym, subst, ap, Text, Option, none,
  some, List, [], ◌∷◌, Outcome, ok, err, panic, continue, arith, u64_mod, length, All, trichotomy,
  inl, inr,
}
use gravity_kvstore.Types.{TransactionReceipt, UnsignedTransaction, TransactionWithAccount}
use gravity_kvstore.Types.Deps.{Deps, BincodeLaws}
use gravity_kvstore.Crypto.{SignatureError, verify_signature}
use gravity_kvstore.State.{State}
use gravity_kvstore.Executor.{ExecuteError, sender_state, execute_transaction, execute_next}
use gravity_kvstore.Executor.Block.{gather, execute_txns}
use gravity_kvstore.Executor.Conserve.{total}
use gravity_kvstore.Executor.Supply.{execute_next-total}
use gravity_kvstore.Executor.Nonces.{nonce-sender_state}
use gravity_kvstore.Executor.Replay.{HasNext, execute_next-IsSpent}
use gravity_kvstore.Executor.Gap.{execute_next-ahead}
use gravity_kvstore.Executor.Ledger.{Ledger, next, next_from, and_then, all, view}
use gravity_kvstore.Executor.Ledger.Moves.{next-behind, next-ahead, next-same}
use gravity_kvstore.Executor.Ledger.Step.{Implements, kind-Implements}

-- The signer, where the signature verifies.
abbrev pub signer : Outcome SignatureError Text → Option Text
signer (ok sender) = some sender
signer (err e) = none
signer panic = none

-- The transactions with their signers.
abbrev pub sent : Deps → List TransactionWithAccount → List (Option Text × UnsignedTransaction)
sent d [] = []
sent d (t ∷ txs) = (signer (verify_signature d t.txn), t.txn.unsigned) ∷ sent d txs

Implements-panic :
    {R : Type 0} {run : Outcome ExecuteError R × State} (s : State) (o : Option Ledger)
    → run ≡ (panic, s)
    → o ≡ none
    → Implements run o
Implements-panic s o ran e = subst (λ q. Implements q o) (sym ran) e

-- Two runs that do what one ledger does end with one ledger.
pub Implements-agree :
    {R : Type 0} (r r' : Outcome ExecuteError R × State) (o : Option Ledger)
    → Implements r o
    → Implements r' o
    → (s : State) {a : R} → r ≡ (ok a, s)
    → (s' : State) × (a' : R) × (r' ≡ (ok a', s')) × (view s ≡ view s')
Implements-agree {R = R} (ok b, t) (ok b', t') o h h' s e = (
  t',
  b',
  refl,
  ap (λ (p : Outcome ExecuteError R × State). view p.1) (sym e) ∙ some-injective _ _ (sym h ∙ h'),
)
Implements-agree (ok b, t) (panic, t') o h h' s e = absurd (none-ne-some _ (sym h' ∙ h))
Implements-agree (ok b, t) (err e', t') o h h' s e = absurd h'
Implements-agree (err e', t) r' o h h' s e = absurd h
Implements-agree (panic, t) r' o h h' s e = cc

gather-Implements :
    (first : List TransactionReceipt) (p : Outcome ExecuteError (List TransactionReceipt) × State)
    (o : Option Ledger)
    → Implements p o
    → Implements (gather first p) o
gather-Implements first (ok rest, s) o h = h
gather-Implements first (err e, s) o h = h
gather-Implements first (panic, s) o h = h

continue-Implements :
    (p : Outcome ExecuteError (List TransactionReceipt) × State) (o : Option Ledger)
    (rest : State → Outcome ExecuteError (List TransactionReceipt) × State)
    (f : Ledger → Option Ledger)
    → Implements p o
    → ((first : List TransactionReceipt) (s : State)
        → p ≡ (ok first, s)
        → Implements (rest s) (f (view s)))
    → Implements (continue p λ receipts s. gather receipts (rest s)) (and_then o f)
continue-Implements (ok first, s) o rest f one more =
    subst (λ q. Implements (gather first (rest s)) (and_then q f)) (sym one)
      (gather-Implements first (rest s) _ (more first s refl))
continue-Implements (err e, s) o rest f one more = absurd one
continue-Implements (panic, s) o rest f one more = ap (λ q. and_then q f) one

module _ (d : Deps) (bincode : BincodeLaws d) where
  next-Implements :
      (t : TransactionWithAccount) (sender : Text) (s : State)
      → verify_signature d t.txn ≡ ok sender
      → HasNext t
      → 2 * (total s + 5000000000) < u64_mod
      → Implements (execute_next d t s) (next t.txn.unsigned sender (view s))
  next-Implements t sender s v fits small =
      elim (trichotomy t.txn.unsigned.nonce (sender_state sender s).nonce) [
        | inl less ↦
            let skipped =
              execute_next-IsSpent d t s (sender, v, omega (arith, nonce-sender_state sender s)) in
            subst (λ q. Implements q (next t.txn.unsigned sender (view s))) (sym skipped)
              (next-behind t.txn.unsigned sender s less)
        | inr (inl more) ↦
            Implements-panic s _ (execute_next-ahead d t sender s v more)
              (next-ahead t.txn.unsigned sender s more)
        | inr (inr same) ↦
            subst (Implements (execute_next d t s)) (sym (next-same t.txn.unsigned sender s same))
              (kind-Implements d bincode t sender s v same fits t.txn.unsigned.kind refl small)
      ]

  unsigned-panics :
      (t : TransactionWithAccount) (s : State)
      → signer (verify_signature d t.txn) ≡ none
      → execute_next d t s ≡ (panic, s)
  unfolding execute_next execute_transaction
  unsigned-panics t s h = ground arith

  round-Implements :
      (t : TransactionWithAccount) (s : State)
      → HasNext t
      → 2 * (total s + 5000000000) < u64_mod
      → Implements
          (execute_next d t s)
          (next_from (signer (verify_signature d t.txn)) t.txn.unsigned (view s))
  round-Implements t s fits small = by_signer (verify_signature d t.txn) refl
    where
      by_signer :
          (o : Outcome SignatureError Text)
          → verify_signature d t.txn ≡ o
          → Implements (execute_next d t s) (next_from (signer o) t.txn.unsigned (view s))
      by_signer (ok sender) v = next-Implements t sender s v fits small
      by_signer (err e) v = Implements-panic s none (unsigned-panics t s (ap signer v)) refl
      by_signer panic v = Implements-panic s none (unsigned-panics t s (ap signer v)) refl

  -- Under the laws of bincode: a run over transactions, none of which has the last `u64` as its
  -- nonce, from balances whose sum and the grants of 5000000000 for each of them are together below
  -- half of the range of `u64`, does what the ledger over numbers without bound does. It ends in
  -- a state whose ledger is that of the transactions, applied one after the other to the ledger of
  -- the first state, and panics where one of them has no signer, is ahead of its sender or cannot
  -- be paid.
  pub execute_txns-Implements :
      (txs : List TransactionWithAccount) (s : State)
      → All HasNext txs
      → 2 * (total s + 5000000000 * length txs) < u64_mod
      → Implements (execute_txns d txs s) (all (sent d txs) (view s))
  unfolding execute_txns
  execute_txns-Implements [] s fits small = refl
  execute_txns-Implements (t ∷ txs) s fits small =
      continue-Implements (execute_next d t s)
        (next_from (signer (verify_signature d t.txn)) t.txn.unsigned (view s)) (execute_txns d txs)
        (all (sent d txs)) (round-Implements t s fits.0 (omega arith))
        λ first s₁ e.
          let one = execute_next-total d t s s₁ fits.0 (omega arith) e in
          execute_txns-Implements txs s₁ fits.1 (omega arith)
