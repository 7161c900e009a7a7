-- ===== src/Executor/Ledger.antt =====
-- What a block means, apart from executor/executor.rs: a ledger over numbers without bound. A
-- holder's store is a function, and so are the holders: no order, no representation.
pub mod Moves
pub mod Step
pub mod Append
pub mod Refines
pub mod Blocks
pub mod Rounds
pub mod Replicas
pub mod Order
pub mod Reorder
use gravity_kvstore.Prelude.{
  ℕ, ◌+◌, ◌-◌, ltb, if◌then◌else◌, ◌≡◌, refl, fun_ext, Text, bytes_eq, bytes_beq, Option, none,
  some, List, [], ◌∷◌, arith, ap, ◌∙◌, Bool, true, false, Option-cases, inl, inr,
}
use gravity_kvstore.Dict
use gravity_kvstore.Dict.Laws.{lookup-insert}
use gravity_kvstore.Types.{
  AccountId, AccountState, TransactionKind, transfer, set_kv, UnsignedTransaction,
}
use gravity_kvstore.Types.Deps.{Deps}
use gravity_kvstore.State.{State, get_account, update_account_state}
use gravity_kvstore.State.Laws.{get_account-update}
use gravity_kvstore.Executor.{sender_state, receiver_state}

pub record Holder : Type 0 where
  pub nonce : ℕ
  pub balance : ℕ
  pub value : Text → Option Text

abbrev pub Ledger : Type 0
Ledger = Text → Option Holder

-- A sender that is not known is granted a balance; a receiver is not.
abbrev pub granted : Holder
granted = record { nonce = 0; balance = 5000000000; value = λ k. none }

abbrev pub empty : Holder
empty = record { nonce = 0; balance = 0; value = λ k. none }

abbrev pub known_or : Holder → Option Holder → Holder
known_or fresh none = fresh
known_or fresh (some h) = h

abbrev pub put : Text → Holder → Ledger → Ledger
put a h ledger = λ b. if bytes_beq a b then some h else ledger b

-- What a sender's kind of transaction makes of the ledger; nothing, if it cannot be paid. A
-- transfer writes the receiver first and the sender, as it was before, over it.
abbrev pub move : TransactionKind → Text → Holder → Ledger → Option Ledger
move (transfer receiver amount) sender from ledger =
    let to = known_or empty (ledger receiver) in
    if ltb from.balance amount
    then none
    else some (
        put sender (record from { balance = from.balance - amount; nonce = from.nonce + 1 })
          (put receiver (record to { balance = to.balance + amount }) ledger))
move (set_kv key value) sender from ledger = some (
    put sender
      (record from {
        nonce = from.nonce + 1;
        value = λ k. if bytes_beq key k then some value else from.value k;
      })
      ledger)

-- A transaction that is behind changes nothing, one that is ahead is no transaction.
abbrev pub next : UnsignedTransaction → Text → Ledger → Option Ledger
next tx sender ledger =
    let from = known_or granted (ledger sender) in
    if ltb tx.nonce from.nonce
    then some ledger
    else if ltb from.nonce tx.nonce
    then none
    else move tx.kind sender from ledger

-- A transaction without a sender is none.
abbrev pub next_from : Option Text → UnsignedTransaction → Ledger → Option Ledger
next_from none tx ledger = none
next_from (some sender) tx ledger = next tx sender ledger

abbrev pub and_then : Option Ledger → (Ledger → Option Ledger) → Option Ledger
and_then none f = none
and_then (some ledger) f = f ledger

-- The transactions of a block, each with its sender, if it has one.
abbrev pub all : List (Option Text × UnsignedTransaction) → Ledger → Option Ledger
all [] ledger = some ledger
all ((sender, tx) ∷ txs) ledger = and_then (next_from sender tx ledger) (all txs)

-- The ledger that a state stands for.
abbrev pub holder_of : AccountState → Holder
holder_of account = record {
  nonce = account.nonce;
  balance = account.balance;
  value = λ k. Dict.lookup k account.kv_store;
}

abbrev pub held : Option AccountState → Option Holder
held none = none
held (some account) = some (holder_of account)

abbrev pub view : State → Ledger
view s = λ a. held (get_account a s)

-- The accounts that the code falls back on are those of the ledger.
pub holder_of-sender_state :
    (a : Text) (s : State) → known_or granted (view s a) ≡ holder_of (sender_state a s)
unfolding sender_state
holder_of-sender_state a s = elim (Option-cases (get_account a s)) [
  | inl e ↦ rw (e, sender_state) refl
  | inr (account, e) ↦ rw (e, sender_state) refl
]

pub holder_of-receiver_state :
    (a : Text) (s : State) → known_or empty (view s a) ≡ holder_of (receiver_state a s)
unfolding receiver_state
holder_of-receiver_state a s = elim (Option-cases (get_account a s)) [
  | inl e ↦ rw (e, receiver_state) refl
  | inr (account, e) ↦ rw (e, receiver_state) refl
]

held-if :
    (b : Bool) (account : AccountState) (o : Option AccountState)
    → held (if b then some account else o) ≡ (if b then some (holder_of account) else held o)
held-if true account o = refl
held-if false account o = refl

-- An update of the state is one of the ledger.
pub view-update_account_state :
    (d : Deps) (id : AccountId) (account : AccountState) (s : State)
    → view (update_account_state d id account s) ≡ put id.text (holder_of account) (view s)
view-update_account_state d id account s = fun_ext λ a.
    ap held (get_account-update d id account s a)
    ∙ held-if (bytes_beq id.text a) account (get_account a s)

-- A key that is set in a store.
pub holder_of-insert :
    (key new : Text) (n : ℕ) (account : AccountState)
    → holder_of (record account { nonce = n; kv_store = Dict.insert key new account.kv_store })
      ≡ record (holder_of account) {
        nonce = n;
        value = λ k. if bytes_beq key k then some new else Dict.lookup k account.kv_store;
      }
holder_of-insert key new n account =
    ap (λ (f : Text → Option Text). record { nonce = n; balance = account.balance; value = f })
      (fun_ext λ k. lookup-insert key k new account.kv_store)
