-- ===== src/Shell/Keeps.antt =====
-- What the commands of app/shell.rs leave alone, whether they go through or panic.
use gravity_kvstore.Prelude.{
  ◌+◌, ◌<◌, if-both, Text, bytes_beq, List, [], ◌∷◌, Outcome, u64_mod, ascii, continue-keeps,
  Outcome-cases, Option-cases, inl, inr,
}
use gravity_kvstore.Types.{UnsignedTransaction, set_kv, Transaction, TransactionWithAccount}
use gravity_kvstore.Types.Deps.{Deps}
use gravity_kvstore.Types.Convert.{sequence_number}
use gravity_kvstore.Crypto.{KeyPair, public_key_to_address, sign_transaction}
use gravity_kvstore.State.{State}
use gravity_kvstore.Storage.{Storage}
use gravity_kvstore.Mempool.{add_raw_txn}
use gravity_kvstore.Mempool.WellFormed.{add_raw_txn-IsWellFormed}
use gravity_kvstore.Server.Keeps.{IsKept}
use gravity_kvstore.Shell.{
  Shell, Line, nonce_or_zero, copy_hash, receipt_line, say, send_set, handle_user_command,
  handle_set_command, handle_get_command, handle_query_txn_command, handle_command,
}

-- Every account's next nonce fits in a `u64`.
abbrev pub HasNonces : State → Type 0
HasNonces s = (a : Text) → nonce_or_zero a s + 1 < u64_mod

module _ (d : Deps) {S : Type 0} (s : State) (store : S) where
  -- The shell shares this state and this store, and its pool is well formed.
  abbrev pub IsReady : Shell d S → Type 0
  IsReady shell = IsKept s store shell.context

  handle_user_command-IsReady :
      (args : List Text) (shell : Shell d S)
      → IsReady shell
      → IsReady (handle_user_command d args shell).1
  unfolding handle_user_command
  handle_user_command-IsReady [] shell h = h
  handle_user_command-IsReady (name ∷ []) shell h = h
  handle_user_command-IsReady (name ∷ hash ∷ rest) shell h =
      elim (Outcome-cases (d.hex_decode hash)) [
        | inl (bytes, e) ↦ elim (Outcome-cases (d.secret_key_from_slice bytes)) [
          | inl (key, e') ↦ rw (e, e', handle_user_command) h
          | inr (inl (e'', e')) ↦ rw (e, e', handle_user_command) h
          | inr (inr e') ↦ rw (e, e', handle_user_command) h
        ]
        | inr (inl (e', e)) ↦ rw (e, handle_user_command) h
        | inr (inr e) ↦ rw (e, handle_user_command) h
      ]

  handle_get_command-IsReady :
      (args : List Text) (shell : Shell d S)
      → IsReady shell
      → IsReady (handle_get_command d args shell).1
  unfolding handle_get_command
  handle_get_command-IsReady [] shell h = h
  handle_get_command-IsReady (name ∷ []) shell h = h
  handle_get_command-IsReady (name ∷ key ∷ rest) shell h = elim (Option-cases shell.keypair) [
    | inl e ↦ rw (e, handle_get_command) h
    | inr (pair, e) ↦ rw (e, handle_get_command) h
  ]

  handle_query_txn_command-IsReady :
      (storage : Storage S) (args : List Text) (shell : Shell d S)
      → IsReady shell
      → IsReady (handle_query_txn_command d storage args shell).1
  unfolding handle_query_txn_command
  handle_query_txn_command-IsReady storage [] shell h = h
  handle_query_txn_command-IsReady storage (name ∷ []) shell h = h
  handle_query_txn_command-IsReady storage (name ∷ hash ∷ rest) shell h =
      elim (Outcome-cases (d.hex_decode hash)) [
        | inl (bytes, e) ↦
            rw (e, handle_query_txn_command)
              (continue-keeps IsReady (copy_hash bytes, shell) _ h
                λ txn_hash sh h'.
                  continue-keeps IsReady
                    (receipt_line (storage.get_transaction_receipt txn_hash sh.context.store), sh)
                    (say d) h' (λ _ sh' h''. h''))
        | inr (inl (e', e)) ↦ rw (e, handle_query_txn_command) h
        | inr (inr e) ↦ rw (e, handle_query_txn_command) h
      ]

  module _ (nonces : HasNonces s) where
    send_set-IsReady :
        (key new : Text) (pair : KeyPair d) (shell : Shell d S)
        → IsReady shell
        → IsReady (send_set d key new pair shell).1
    unfolding send_set sequence_number
    send_set-IsReady key new pair shell h =
        let a = public_key_to_address d pair.public_key in
        let unsigned : UnsignedTransaction = record {
          nonce = nonce_or_zero a shell.context.state;
          kind = set_kv key new;
        } in
        let fits : nonce_or_zero a shell.context.state + 1 < u64_mod = rw (h.0) (nonces a) in
        continue-keeps IsReady (sign_transaction d {E = Unit {0}} unsigned pair.secret_key, shell) _
          h
          λ signature sh h'.
            let txn : Transaction = record { unsigned = unsigned; signature = signature } in
            let t : TransactionWithAccount = record { txn = txn; address = a } in
            let (sent, pool) = add_raw_txn d {E = Unit {0}} t sh.context.mempool in
            continue-keeps IsReady
              (sent, record sh { context = record (sh.context) { mempool = pool } }) _
              (h'.0, h'.1, add_raw_txn-IsWellFormed d (Unit {0}) t sh.context.mempool fits h'.2)
              (λ _ sh' h''. h'')

    handle_set_command-IsReady :
        (args : List Text) (shell : Shell d S)
        → IsReady shell
        → IsReady (handle_set_command d args shell).1
    unfolding handle_set_command
    handle_set_command-IsReady [] shell h = h
    handle_set_command-IsReady (name ∷ []) shell h = h
    handle_set_command-IsReady (name ∷ key ∷ []) shell h = h
    handle_set_command-IsReady (name ∷ key ∷ new ∷ rest) shell h =
        elim (Option-cases shell.keypair) [
          | inl e ↦ rw (e, handle_set_command) h
          | inr (pair, e) ↦ rw (e, handle_set_command) (send_set-IsReady key new pair shell h)
        ]

    -- Any command keeps it so.
    pub handle_command-IsReady :
        (storage : Storage S) (args : List Text) (shell : Shell d S)
        → IsReady shell
        → IsReady (handle_command d storage args shell).1
    unfolding handle_command
    handle_command-IsReady storage [] shell h = h
    handle_command-IsReady storage (name ∷ args) shell h =
        let words = name ∷ args in
        let P = λ (run : Outcome (Unit {0}) (List Line) × Shell d S). IsReady run.1 in
        if-both P (bytes_beq name (ascii "user")) (λ _. handle_user_command-IsReady words shell h)
          (if-both P (bytes_beq name (ascii "set")) (λ _. handle_set_command-IsReady words shell h)
            (if-both P (bytes_beq name (ascii "get"))
              (λ _. handle_get_command-IsReady words shell h)
              (if-both P (bytes_beq name (ascii "query_txn"))
                (λ _. handle_query_txn_command-IsReady storage words shell h)
                (if-both P (bytes_beq name (ascii "help")) (λ _. h)
                  (if-both P (bytes_beq name (ascii "?")) (λ _. h)
                    (if-both P (bytes_beq name (ascii "exit")) (λ _. h) h))))))
