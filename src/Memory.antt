-- ===== src/Memory.antt =====
-- What the parts of the node share by `Arc`: a clone of an `Arc` is its address, and the values at
-- the addresses are in one memory. The memory of a store `S` is its `SledStorage`.
use gravity_kvstore.Prelude.{
  arith, ◌≡◌, refl, ℕ, zero, suc, Option, none, some, List, [], ◌∷◌, ◌++◌, Outcome, ok, panic,
  ◌>>=◌, length,
}
use gravity_kvstore.State.{State}
use gravity_kvstore.Mempool.{Pool}
use gravity_kvstore.Executor.Block.{Pending}
use gravity_kvstore.Server.{Context}

pub record Memory (S : Type 0) : Type 0 where
  pub states : List State
  pub stores : List S
  pub pools : List Pool
  pub pendings : List Pending

abbrev pub nothing : {S : Type 0} → Memory S
nothing = record { states = []; stores = []; pools = []; pendings = [] }

-- `Arc::new`: an address that was not in use, and the cells with the new one.
abbrev pub arc {ℓ} : {A : Type ℓ} → A → List A → ℕ × List A
arc a cells = (length cells, cells ++ a ∷ [])

-- What an address points to.
abbrev pub at {ℓ} : {A : Type ℓ} → ℕ → List A → Option A
at i [] = none
at zero (a ∷ cells) = some a
at (suc i) (a ∷ cells) = at i cells

-- No address is made but by `arc`, so each has a cell: there is no panic here.
abbrev pub deref {ℓ κ} : {E : Type ℓ} {A : Type κ} → ℕ → List A → Outcome E A
deref i cells = elim (at i cells) [ some a ↦ ok a | none ↦ panic ]

abbrev pub write {ℓ} : {A : Type ℓ} → ℕ → A → List A → List A
write i new [] = []
write zero new (a ∷ cells) = new ∷ cells
write (suc i) new (a ∷ cells) = a ∷ write i new cells

-- The three that a server or a shell has: the addresses in its `Context` or `Shell`.
pub record Handles : Type 0 where
  pub state : ℕ
  pub store : ℕ
  pub mempool : ℕ

-- The context at the three addresses.
abbrev pub load {ℓ} : {E : Type ℓ} {S : Type 0} → Handles → Memory S → Outcome E (Context S)
load h memory = do
  state ← deref h.state memory.states
  store ← deref h.store memory.stores
  mempool ← deref h.mempool memory.pools
  ok (record { state = state; store = store; mempool = mempool })

-- What a call has left of the context, back at the addresses.
abbrev pub save : {S : Type 0} → Handles → Context S → Memory S → Memory S
save h c memory = record memory {
  states = write h.state c.state memory.states;
  stores = write h.store c.store memory.stores;
  pools = write h.mempool c.mempool memory.pools;
}

pub at-write {ℓ} :
    {A : Type ℓ} (i : ℕ) (a new : A) (cells : List A)
    → at i cells ≡ some a
    → at i (write i new cells) ≡ some new
at-write i a new [] h = cc
at-write zero a new (b ∷ cells) h = refl
at-write (suc i) a new (b ∷ cells) h = at-write i a new cells h

pub load-ok {ℓ} :
    {E : Type ℓ} {S : Type 0} (h : Handles) (c : Context S) (memory : Memory S)
    → at h.state memory.states ≡ some c.state
    → at h.store memory.stores ≡ some c.store
    → at h.mempool memory.pools ≡ some c.mempool
    → load {E = E} h memory ≡ ok c
load-ok h c memory state store mempool = ground arith
