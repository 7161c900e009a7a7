-- ===== src/Server/Keeps.antt =====
-- What the requests to app/server.rs leave alone.
use gravity_kvstore.Prelude.{◌+◌, ◌<◌, ◌≡◌, map_err, u64_mod, continue-keeps}
use gravity_kvstore.Types.{Transaction, TransactionWithAccount}
use gravity_kvstore.Types.Deps.{Deps}
use gravity_kvstore.Types.Convert.{sequence_number}
use gravity_kvstore.Crypto.{verify_signature}
use gravity_kvstore.State.{State}
use gravity_kvstore.Mempool.{add_raw_txn}
use gravity_kvstore.Mempool.WellFormed.{IsWellFormed, add_raw_txn-IsWellFormed}
use gravity_kvstore.Server.{
  Context, TransactionError, invalid_signature, signature_message, add_txn,
}

-- The context has this state and this store, and its pool is well formed.
abbrev pub IsKept : {S : Type 0} → State → S → Context S → Type 0
IsKept s store c = (c.state ≡ s) × (c.store ≡ store) × IsWellFormed c.mempool

module _ (d : Deps) {S : Type 0} (s : State) (store : S) where
  pub add_txn-IsKept :
      (txn : Transaction) (c : Context S)
      → txn.unsigned.nonce + 1 < u64_mod
      → IsKept s store c
      → IsKept s store (add_txn d txn c).1
  unfolding add_txn sequence_number
  add_txn-IsKept txn c fits h =
      continue-keeps (IsKept s store)
        (map_err (λ e. invalid_signature (signature_message e)) (verify_signature d txn), c) _ h
        λ address c' h'.
          let t : TransactionWithAccount = record { txn = txn; address = address } in
          let (sent, pool) = add_raw_txn d {E = TransactionError} t c'.mempool in
          continue-keeps (IsKept s store) (sent, record c' { mempool = pool }) _
            (h'.0, h'.1, add_raw_txn-IsWellFormed d TransactionError t c'.mempool fits h'.2)
            (λ _ c'' h''. h'')
