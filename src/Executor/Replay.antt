-- ===== src/Executor/Replay.antt =====
-- Protection against replay, for executor/executor.rs: nonces never fall, and what has been
-- executed is skipped when it comes again.
use gravity_kvstore.Prelude.{
  ◌+◌, ◌≤◌, ◌<◌, ◌≡◌, ◌⊎◌, inl, inr, refl, Text, bytes_eq, bytes_beq_iff, bytes_beq_refl, none,
  List, [], ◌∷◌, ◌++◌, Outcome, ok, err, panic, arith, u64_mod, All, continue-eq-ok,
}
use gravity_kvstore.Types.{TransactionReceipt, TransactionWithAccount}
use gravity_kvstore.Types.Deps.{Deps}
use gravity_kvstore.Crypto.{verify_signature}
use gravity_kvstore.State.{State}
use gravity_kvstore.Executor.{
  ExecuteError, execute_from, execute_valid, execute_transaction, execute_next,
}
use gravity_kvstore.Executor.Block.{execute_txns, gather}
use gravity_kvstore.Executor.Effects.{execute_transaction-eq-from}
use gravity_kvstore.Executor.Nonces.{nonce_of, nonce-sender_state, nonce_of-next}

-- The nonce of a transaction is not the last `u64`.
abbrev pub HasNext : TransactionWithAccount → Type 0
HasNext t = t.txn.unsigned.nonce + 1 < u64_mod

gather-eq-ok :
    (first : List TransactionReceipt) (p : Outcome ExecuteError (List TransactionReceipt) × State)
    {rs : List TransactionReceipt} {s' : State}
    → gather first p ≡ (ok rs, s')
    → (rest : List TransactionReceipt) × (p ≡ (ok rest, s')) × (rs ≡ first ++ rest)
gather-eq-ok first (ok rest, s) h = (rest, ground arith, ground arith)
gather-eq-ok first (err e, s) h = cc
gather-eq-ok first (panic, s) h = cc

module _ (d : Deps) where
  -- The signer's nonce is past the transaction's.
  abbrev pub IsSpent : TransactionWithAccount → State → Type 0
  IsSpent t s =
      (sender : Text) × (verify_signature d t.txn ≡ ok sender)
      × (t.txn.unsigned.nonce < nonce_of sender s)

  pub execute_next-IsSpent :
      (t : TransactionWithAccount) (s : State) → IsSpent t s → execute_next d t s ≡ (ok [], s)
  unfolding execute_next execute_from
  execute_next-IsSpent t s (sender, v, past) =
      ground (arith, execute_transaction-eq-from d t.txn sender s v, nonce-sender_state sender s)

  pub execute_next-signed :
      (t : TransactionWithAccount) (s s' : State) {rs : List TransactionReceipt}
      → execute_next d t s ≡ (ok rs, s')
      → (sender : Text) × (verify_signature d t.txn ≡ ok sender)
  unfolding execute_next execute_transaction
  execute_next-signed t s s' h = ground arith

  execute_from-eq-none :
      (t : TransactionWithAccount) (sender : Text) (s : State)
      → execute_from d t.txn sender s ≡ ok none
      → t.txn.unsigned.nonce < nonce_of sender s
  unfolding execute_from execute_valid
  execute_from-eq-none t sender s h = ground (arith, nonce-sender_state sender s)

  -- A round that does not panic skips a spent transaction, or executes it and has its receipt.
  pub execute_next-cases :
      (t : TransactionWithAccount) (sender : Text) (s s' : State) {rs : List TransactionReceipt}
      → verify_signature d t.txn ≡ ok sender
      → execute_next d t s ≡ (ok rs, s')
      → ((s' ≡ s) × (execute_from d t.txn sender s ≡ ok none))
        ⊎ ((r : TransactionReceipt) × (rs ≡ r ∷ []))
  unfolding execute_next
  execute_next-cases t sender s s' {rs = []} v h =
      inl (ground (arith, execute_transaction-eq-from d t.txn sender s v))
  execute_next-cases t sender s s' {rs = r ∷ more} v h =
      inr (r, ground (arith, execute_transaction-eq-from d t.txn sender s v))

  -- A round that does not panic leaves its transaction spent, and lowers no nonce.
  pub execute_next-spends :
      (t : TransactionWithAccount) (s s' : State) {rs : List TransactionReceipt}
      → HasNext t
      → execute_next d t s ≡ (ok rs, s')
      → IsSpent t s' × ((a : Text) → nonce_of a s ≤ nonce_of a s')
  execute_next-spends t s s' fits h =
      let (sender, v) = execute_next-signed t s s' h in
      elim (execute_next-cases t sender s s' v h) [
        | inl (same, skip) ↦
            rw same ((sender, v, execute_from-eq-none t sender s skip), λ a. omega arith)
        | inr (r, e) ↦
            let moved = λ (a : Text). nonce_of-next d t sender s s' a v fits (rw e at h) in
            (
              (sender, v, ground (arith, moved sender, bytes_beq_refl sender)),
              λ a. ground (arith, moved a, bytes_beq_iff sender a),
            )
      ]

  IsSpent-mono :
      (t : TransactionWithAccount) (s s' : State)
      → ((a : Text) → nonce_of a s ≤ nonce_of a s')
      → IsSpent t s
      → IsSpent t s'
  IsSpent-mono t s s' up (sender, v, past) = (sender, v, ground (arith, up sender))

  -- A run that does not panic is a round that does not, and such a run from there.
  pub execute_txns-eq-ok :
      (t : TransactionWithAccount) (txs : List TransactionWithAccount) (s s' : State)
      {rs : List TransactionReceipt}
      → execute_txns d (t ∷ txs) s ≡ (ok rs, s')
      → (s₁ : State) × (first : List TransactionReceipt) × (rest : List TransactionReceipt)
        × (execute_next d t s ≡ (ok first, s₁))
        × (execute_txns d txs s₁ ≡ (ok rest, s'))
        × (rs ≡ first ++ rest)
  unfolding execute_txns
  execute_txns-eq-ok t txs s s' h =
      let (first, s₁, e, run) = continue-eq-ok (execute_next d t s) _ h in
      let (rest, r, joined) = gather-eq-ok first (execute_txns d txs s₁) run in
      (s₁, first, rest, e, r, joined)

  -- A run over transactions, none of which has the last `u64` as its nonce, that does not panic
  -- leaves them all spent: each has a signer, whose nonce is past its own. No nonce of any account
  -- falls.
  pub execute_txns-spends :
      (txs : List TransactionWithAccount) (s s' : State) {rs : List TransactionReceipt}
      → All HasNext txs
      → execute_txns d txs s ≡ (ok rs, s')
      → All (λ t. IsSpent t s') txs × ((a : Text) → nonce_of a s ≤ nonce_of a s')
  unfolding execute_txns
  execute_txns-spends [] s s' fits h = (tt, λ a. ground arith)
  execute_txns-spends (t ∷ txs) s s' fits h =
      let (s₁, first, rest, e, run, joined) = execute_txns-eq-ok t txs s s' h in
      let (spent, up) = execute_next-spends t s s₁ fits.0 e in
      let (all_spent, up') = execute_txns-spends txs s₁ s' fits.1 run in
      ((IsSpent-mono t s₁ s' up' spent, all_spent), λ a. omega (arith, up a, up' a))

  execute_txns-skips :
      (txs : List TransactionWithAccount) (s : State)
      → All (λ t. IsSpent t s) txs
      → execute_txns d txs s ≡ (ok [], s)
  unfolding execute_txns
  execute_txns-skips [] s h = refl
  execute_txns-skips (t ∷ txs) s h =
      ground (arith, execute_next-IsSpent t s h.0, execute_txns-skips txs s h.1)

  -- Executing a list of transactions again, none of which has the last `u64` as its nonce, after a
  -- run of them that did not panic, changes nothing and gives no receipt.
  pub execute_txns_again :
      (txs : List TransactionWithAccount) (s s' : State) {rs : List TransactionReceipt}
      → All HasNext txs
      → execute_txns d txs s ≡ (ok rs, s')
      → execute_txns d txs s' ≡ (ok [], s')
  execute_txns_again txs s s' fits h =
      execute_txns-skips txs s' (execute_txns-spends txs s s' fits h).0
