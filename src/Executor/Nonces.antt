-- ===== src/Executor/Nonces.antt =====
-- The nonces of the accounts through one executed transaction, for executor/executor.rs.
use gravity_kvstore.Prelude.{
  ℕ, ◌+◌, ◌%◌, ◌<◌, ◌≡◌, Text, bytes_eq, bytes_beq, bytes_beq_iff, if◌then◌else◌, Option, none,
  some, List, [], ◌∷◌, ok, arith, u64_mod,
}
use gravity_kvstore.Types.{
  AccountId, AccountState, TransactionKind, transfer, set_kv, TransactionReceipt,
  TransactionWithAccount,
}
use gravity_kvstore.Types.Deps.{Deps}
use gravity_kvstore.Crypto.{verify_signature}
use gravity_kvstore.State.{State, get_account, update_account_state}
use gravity_kvstore.State.Laws.{get_account-update}
use gravity_kvstore.Executor.{
  sender_state, receiver_state, execute_kind, apply_updates, execute_next,
}
use gravity_kvstore.Executor.Effects.{execute_from-eq-valid, execute_next-eq-some}
use gravity_kvstore.Executor.Transfer.{execute_next-state}

abbrev nonce_in : Option AccountState → ℕ
nonce_in none = 0
nonce_in (some account) = account.nonce

-- The next nonce of an account: 0 for one that the state does not know.
pub nonce_of : Text → State → ℕ
nonce_of a s = nonce_in (get_account a s)

pub nonce-sender_state : (a : Text) (s : State) → (sender_state a s).nonce ≡ nonce_of a s
unfolding sender_state nonce_of
nonce-sender_state a s = ground arith

module _ (d : Deps) where
  pub nonce_of-update :
      (id : AccountId) (account : AccountState) (s : State) (a : Text)
      → nonce_of a (update_account_state d id account s)
        ≡ (if bytes_beq id.text a then account.nonce else nonce_of a s)
  unfolding nonce_of
  nonce_of-update id account s a = ground (arith, get_account-update d id account s a)

  updates-transfer :
      (receiver : Text) (amount : ℕ) (sender : AccountState) (s : State) {after : AccountState}
      {updates : List (AccountId × AccountState)}
      → execute_kind d (transfer receiver amount) sender s ≡ ok (after, updates)
      → updates
        ≡ (
          record { text = receiver },
          record (receiver_state receiver s) {
            balance = ((receiver_state receiver s).balance + amount) % u64_mod;
          },
        )
          ∷ []
  unfolding execute_kind
  updates-transfer receiver amount sender s h = ground arith

  nonce-receiver_state : (a : Text) (s : State) → (receiver_state a s).nonce ≡ nonce_of a s
  unfolding receiver_state nonce_of
  nonce-receiver_state a s = ground arith

  nonce_of-kind :
      (kind : TransactionKind) (sender : AccountState) (s : State) (a : Text) {after : AccountState}
      {updates : List (AccountId × AccountState)}
      → execute_kind d kind sender s ≡ ok (after, updates)
      → nonce_of a (apply_updates d updates s) ≡ nonce_of a s
  unfolding execute_kind apply_updates
  nonce_of-kind (transfer receiver amount) sender s a h =
      rw (updates-transfer receiver amount sender s h, nonce_of-update)
        (ground (arith, bytes_beq_iff receiver a, nonce-receiver_state receiver s))
  nonce_of-kind (set_kv key value) sender s a h = ground arith

  -- A transaction with a signature of the sender and not the last `u64` for its nonce, that has
  -- its receipt, had the nonce of the sender; it takes that nonce up by one, and leaves those of
  -- the other accounts.
  pub nonce_of-next :
      (t : TransactionWithAccount) (sender : Text) (s s' : State) (a : Text)
      {r : TransactionReceipt}
      → verify_signature d t.txn ≡ ok sender
      → t.txn.unsigned.nonce + 1 < u64_mod
      → execute_next d t s ≡ (ok (r ∷ []), s')
      → (t.txn.unsigned.nonce ≡ nonce_of sender s)
        × (nonce_of a s' ≡ (if bytes_beq sender a then nonce_of sender s + 1 else nonce_of a s))
  nonce_of-next t sender s s' a v fits h =
      let (e, applied) = execute_next-eq-some d t sender s s' v h in
      let (same, valid) = execute_from-eq-valid d t.txn sender s e in
      let known = nonce-sender_state sender s in
      let (after, updates, kind, state) = execute_next-state d t sender s s' (omega arith) v h in
      let kept = nonce_of-kind t.txn.unsigned.kind (sender_state sender s) s a kind in
      (omega arith, rw (state, nonce_of-update, kept, known) (ground arith))
