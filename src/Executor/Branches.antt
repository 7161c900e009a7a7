-- ===== src/Executor/Branches.antt =====
-- All branches of `execute_transaction` of executor/executor.rs.
use gravity_kvstore.Prelude.{
  ◌+◌, ◌≤◌, ◌<◌, ◌≡◌, refl, Text, Option, none, some, Outcome, ok, err, arith, u64_mod, true, List,
  [], ◌∷◌, ◌-◌, ◌⊎◌, inl, inr, ◌∙◌, trichotomy, lt→ltb, ◌++◌,
}
use native.Mathlib.Decide.{dec_le}
use gravity_kvstore.Types.{
  AccountId, AccountState, Transaction, TransactionKind, transfer, set_kv, TransactionReceipt,
}
use gravity_kvstore.Types.Deps.{Deps, BincodeLaws}
use gravity_kvstore.Crypto.{verify_signature, compute_transaction_hash}
use gravity_kvstore.State.{State}
use gravity_kvstore.Executor.{
  ExecuteError, invalid_nonce, insufficient_balance, sender_state, receiver_state, execute_kind,
  execute_valid, execute_from, execute_transaction,
}
use gravity_kvstore.Executor.Effects.{execute_transaction-eq-from}

-- The sender can pay what the transaction asks for.
abbrev pub Affords : TransactionKind → AccountState → Type 0
Affords (transfer receiver amount) sender = amount ≤ sender.balance
Affords (set_kv key value) sender = Unit

abbrev pub Lacks : TransactionKind → AccountState → Type 0
Lacks (transfer receiver amount) sender = sender.balance < amount
Lacks (set_kv key value) sender = ⊥

-- The receiver's balance stays a `u64`.
abbrev pub HasRoom : TransactionKind → State → Type 0
HasRoom (transfer receiver amount) s = (receiver_state receiver s).balance + amount < u64_mod
HasRoom (set_kv key value) s = Unit

-- The kind's part of the outcome.
abbrev KindOutcome :
    TransactionKind
    → AccountState
    → Outcome ExecuteError (AccountState × List (AccountId × AccountState))
    → Type 0
KindOutcome kind sender o =
    (Lacks kind sender × (o ≡ err insufficient_balance))
    ⊎ (Affords kind sender
        × ((p : AccountState × List (AccountId × AccountState)) × (o ≡ ok p)
            × (p.0.nonce ≡ sender.nonce)))

module _ (d : Deps) where
  execute_kind_outcome :
      (kind : TransactionKind) (sender : AccountState) (s : State)
      → HasRoom kind s
      → KindOutcome kind sender (execute_kind d kind sender s)
  unfolding execute_kind
  execute_kind_outcome (transfer receiver amount) sender s room =
      elim (dec_le amount sender.balance) [
        | yes affords ↦ inr (
          affords,
          (
            (
              record sender { balance = sender.balance - amount },
              (
                record { text = receiver },
                record (receiver_state receiver s) {
                  balance = (receiver_state receiver s).balance + amount;
                },
              )
                  ∷ [],
            ),
            ground arith,
            refl,
          ),
        )
        | no poor ↦ inl (omega arith, ground arith)
      ]
  execute_kind_outcome (set_kv key value) sender s room = inr (tt, (_, refl, refl))

  module _ (laws : BincodeLaws d) (tx : Transaction) (s : State) (sender : Text) where
    hash-ok :
        {E : Type 0}
        → compute_transaction_hash d {E = E} tx.unsigned ≡ ok (d.keccak (laws.encoded tx.unsigned))
    unfolding compute_transaction_hash
    hash-ok = rw (laws.bincode-ok tx.unsigned)

    -- A receipt for this transaction, with its hash.
    abbrev pub HasReceipt : Outcome ExecuteError (Option TransactionReceipt) → Type 0
    HasReceipt o =
        (r : TransactionReceipt) × (o ≡ ok (some r))
        × (r.transaction ≡ tx)
        × (r.transaction_hash ≡ d.keccak (laws.encoded tx.unsigned))
        × (r.status ≡ true)

    pub execute_valid-insufficient :
        execute_kind d tx.unsigned.kind (sender_state sender s) s ≡ err insufficient_balance
        → execute_valid d tx sender s ≡ err insufficient_balance
    unfolding execute_valid
    execute_valid-insufficient e = rw e

    execute_valid-receipt :
        (p : AccountState × List (AccountId × AccountState))
        → execute_kind d tx.unsigned.kind (sender_state sender s) s ≡ ok p
        → p.0.nonce + 1 < u64_mod
        → HasReceipt (execute_valid d tx sender s)
    unfolding execute_valid
    execute_valid-receipt p e fits = (
      record {
        transaction = tx;
        transaction_hash = d.keccak (laws.encoded tx.unsigned);
        status = true;
        gas_used = 21000;
        state_updates =
            p.1 ++ (record { text = sender }, record (p.0) { nonce = p.0.nonce + 1 }) ∷ [];
        logs = [];
      },
      rw (e, lt→ltb _ _ fits, hash-ok),
      refl,
      refl,
      refl,
    )

    execute_from-eq-same :
        tx.unsigned.nonce ≡ (sender_state sender s).nonce
        → execute_from d tx sender s ≡ execute_valid d tx sender s
    unfolding execute_from
    execute_from-eq-same same = ground arith

    -- Under the laws of bincode, where the signature gives a sender, the sender's next nonce fits in
    -- a `u64`, and so does the balance of a receiver with the amount, the nonce and the balance
    -- decide the outcome: a spent nonce is skipped, a nonce ahead and an amount that is not covered
    -- are errors, and all else has a receipt for this transaction, with its hash.
    pub execute_transaction_outcome :
        verify_signature d tx ≡ ok sender
        → (sender_state sender s).nonce + 1 < u64_mod
        → HasRoom tx.unsigned.kind s
        → let known = (sender_state sender s).nonce in
          let o = execute_transaction d tx s in
          ((tx.unsigned.nonce < known) × (o ≡ ok none))
          ⊎ ((known < tx.unsigned.nonce) × (o ≡ err (invalid_nonce tx known s)))
          ⊎ ((tx.unsigned.nonce ≡ known)
              × Lacks tx.unsigned.kind (sender_state sender s)
              × (o ≡ err insufficient_balance))
          ⊎ ((tx.unsigned.nonce ≡ known)
              × Affords tx.unsigned.kind (sender_state sender s)
              × HasReceipt o)
    unfolding execute_from
    execute_transaction_outcome v fits room =
        rw (execute_transaction-eq-from d tx sender s v)
          (elim (trichotomy tx.unsigned.nonce (sender_state sender s).nonce) [
            | inl less ↦ inl (less, ground arith)
            | inr (inl more) ↦ inr (inl (more, ground arith))
            | inr (inr same) ↦
                (elim (execute_kind_outcome tx.unsigned.kind (sender_state sender s) s room) [
                  | inl (lacks, e) ↦ inr (
                      inr (
                        inl
                          (same, lacks, execute_from-eq-same same ∙ execute_valid-insufficient e)))
                  | inr (affords, (p, e, n)) ↦ inr (
                      inr (
                        inr (
                          same,
                          affords,
                          rw (execute_from-eq-same same) (execute_valid-receipt p e (omega arith)),
                        )))
                ])
          ])
