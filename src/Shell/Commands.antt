-- ===== src/Shell/Commands.antt =====
-- The commands of app/shell.rs return.
use gravity_kvstore.Prelude.{
  ◌+◌, ◌==◌, ◌<◌, ◌≡◌, ◌≢◌, refl, sym, subst, Bool, true, false, not, ◌&&◌, if-both, Text, Bytes,
  bytes_beq, Option, none, some, List, [], ◌∷◌, Outcome, ok, err, panic, arith, continue, length,
  u64_mod, ascii, Outcome-cases, Option-cases, inl, inr,
}
use gravity_kvstore.Types.{
  UnsignedTransaction, set_kv, Transaction, TransactionReceipt, TransactionWithAccount,
}
use gravity_kvstore.Types.Deps.{Deps, HexLaws, KeccakLaws, BincodeLaws, SecpLaws, ResultLaws}
use gravity_kvstore.Types.Convert.{sequence_number}
use gravity_kvstore.Crypto.{KeyPair, public_key_to_address, sign_transaction}
use gravity_kvstore.Crypto.Signing.{sign_transaction-ok, signature_bytes}
use gravity_kvstore.State.{State}
use gravity_kvstore.Storage.{Storage, StorageError}
use gravity_kvstore.Mempool.{add_raw_txn}
use gravity_kvstore.Mempool.Holds.{add_raw_txn-Holds}
use gravity_kvstore.Server.Submit.{account_of, raw_txn_key-address}
use gravity_kvstore.Shell.{
  Shell, Line, transaction_sent, say, nonce_or_zero, copy_hash, receipt_line, send_set,
  handle_user_command, handle_set_command, handle_get_command, handle_query_txn_command,
  handle_command,
}
use gravity_kvstore.Shell.Keeps.{HasNonces, IsReady}
use gravity_kvstore.Shell.Words.{words_of}
use gravity_kvstore.Shell.Loop.{Event, read, Output, End, panicked}

-- Decoding fails, or gives 32 bytes.
abbrev pub fits_hash : Outcome Text Bytes → Bool
fits_hash (ok bytes) = length bytes == 32
fits_hash (err e) = true
fits_hash panic = false

module _ (d : Deps) where
  -- The words are not those of a query with a hash of another length.
  abbrev pub IsAnswerable : List Text → Type 0
  IsAnswerable (name ∷ hash ∷ rest) =
      (bytes_beq name (ascii "query_txn") && not (fits_hash (d.hex_decode hash))) ≡ false
  IsAnswerable _ = Unit

  -- A line goes into the history, and its query is answerable.
  abbrev pub IsHarmless : Event → Type 0
  IsHarmless (read line added) = (added ≡ ok tt) × IsAnswerable (words_of line)
  IsHarmless _ = Unit

  module _ {S : Type 0} where
    -- A command that returns.
    abbrev pub Returns : Outcome (Unit {0}) (List Line) × Shell d S → Type 0
    Returns (ok lines, shell) = Unit
    Returns (err e, shell) = ⊥
    Returns (panic, shell) = ⊥

    -- A part of the loop that does not panic, with the shell ready.
    abbrev pub Survives : State → S → List Output × End × Shell d S → Type 0
    Survives s store (out, end, shell) = (end ≢ panicked) × IsReady d s store shell

module _ (d : Deps) (results : ResultLaws d) {S : Type 0} (storage : Storage S) (s : State)
    (store : S) where
  handle_user_command-Returns :
      (args : List Text) (shell : Shell d S) → Returns d (handle_user_command d args shell)
  unfolding handle_user_command
  handle_user_command-Returns [] shell = tt
  handle_user_command-Returns (name ∷ []) shell = tt
  handle_user_command-Returns (name ∷ hash ∷ rest) shell =
      elim (Outcome-cases (d.hex_decode hash)) [
        | inl (bytes, e) ↦ elim (Outcome-cases (d.secret_key_from_slice bytes)) [
          | inl (key, e') ↦ rw (e, e', handle_user_command) tt
          | inr (inl (e'', e')) ↦ rw (e, e', handle_user_command) tt
          | inr (inr e') ↦ absurd (results.secret_key-returns bytes e')
        ]
        | inr (inl (e', e)) ↦ rw (e, handle_user_command) tt
        | inr (inr e) ↦ absurd (results.hex_decode-returns hash e)
      ]

  handle_get_command-Returns :
      (args : List Text) (shell : Shell d S) → Returns d (handle_get_command d args shell)
  unfolding handle_get_command
  handle_get_command-Returns [] shell = tt
  handle_get_command-Returns (name ∷ []) shell = tt
  handle_get_command-Returns (name ∷ key ∷ rest) shell = elim (Option-cases shell.keypair) [
    | inl e ↦ rw (e, handle_get_command) tt
    | inr (pair, e) ↦ rw (e, handle_get_command) tt
  ]

  receipt_line-Returns :
      (found : Outcome StorageError (Option TransactionReceipt)) (shell : Shell d S)
      → found ≢ panic
      → Returns d (continue (receipt_line found, shell) (say d))
  receipt_line-Returns (ok (some receipt)) shell returns = tt
  receipt_line-Returns (ok none) shell returns = tt
  receipt_line-Returns (err e) shell returns = tt
  receipt_line-Returns panic shell returns = absurd (returns refl)

  module _ (stored : (hash : Bytes) → storage.get_transaction_receipt hash store ≢ panic) where
    handle_query_txn_command-Returns :
        (name : Text) (args : List Text) (shell : Shell d S)
        → IsAnswerable d (name ∷ args)
        → bytes_beq name (ascii "query_txn") ≡ true
        → IsReady d s store shell
        → Returns d (handle_query_txn_command d storage (name ∷ args) shell)
    unfolding handle_query_txn_command copy_hash
    handle_query_txn_command-Returns name [] shell fits is h = tt
    handle_query_txn_command-Returns name (hash ∷ rest) shell fits is h =
        elim (Outcome-cases (d.hex_decode hash)) [
          | inl (bytes, e) ↦
              let copied : copy_hash bytes ≡ ok bytes = ground arith in
              let asked = storage.get_transaction_receipt bytes shell.context.store in
              let run : handle_query_txn_command d storage (name ∷ hash ∷ rest) shell
                  ≡ continue (receipt_line asked, shell) (say d) =
                ground arith in
              subst (Returns d) (sym run) (
                receipt_line-Returns asked shell (
                  subst (λ q. storage.get_transaction_receipt bytes q ≢ panic) (sym h.1)
                    (stored bytes)))
          | inr (inl (e', e)) ↦ rw (e, handle_query_txn_command) tt
          | inr (inr e) ↦ absurd (results.hex_decode-returns hash e)
        ]

  module _ (hex : HexLaws d) (sha : KeccakLaws d) (bincode : BincodeLaws d) (secp : SecpLaws d)
      (nonces : HasNonces s) where
    send_set-Returns :
        (key new : Text) (pair : KeyPair d) (shell : Shell d S)
        → IsReady d s store shell
        → Returns d (send_set d key new pair shell)
    unfolding send_set sequence_number
    send_set-Returns key new pair shell (same, kept, w) =
        let a = public_key_to_address d pair.public_key in
        let unsigned : UnsignedTransaction = record {
          nonce = nonce_or_zero a shell.context.state;
          kind = set_kv key new;
        } in
        let fits : nonce_or_zero a shell.context.state + 1 < u64_mod = rw same (nonces a) in
        let signature : Text =
          d.hex_encode (signature_bytes d hex sha bincode secp unsigned pair.secret_key) in
        let signed : sign_transaction d {E = Unit {0}} unsigned pair.secret_key ≡ ok signature =
          sign_transaction-ok d hex sha bincode secp unsigned pair.secret_key in
        let txn : Transaction = record { unsigned = unsigned; signature = signature } in
        let t : TransactionWithAccount = record { txn = txn; address = a } in
        let (sent, _) =
          add_raw_txn-Holds d (Unit {0}) t shell.context.mempool
            (account_of d hex sha bincode pair.public_key) (d.keccak (bincode.encoded unsigned)) w
            fits (raw_txn_key-address d hex sha bincode (Unit {0}) pair.public_key txn) in
        let pool = (add_raw_txn d {E = Unit {0}} t shell.context.mempool).1 in
        let run : send_set d key new pair shell
            ≡ say d (transaction_sent (d.hex_encode (d.keccak (bincode.encoded unsigned))))
                (record shell { context = record (shell.context) { mempool = pool } }) =
          ground arith in
        subst (Returns d) (sym run) tt

    handle_set_command-Returns :
        (args : List Text) (shell : Shell d S)
        → IsReady d s store shell
        → Returns d (handle_set_command d args shell)
    unfolding handle_set_command
    handle_set_command-Returns [] shell h = tt
    handle_set_command-Returns (name ∷ []) shell h = tt
    handle_set_command-Returns (name ∷ key ∷ []) shell h = tt
    handle_set_command-Returns (name ∷ key ∷ new ∷ rest) shell h =
        elim (Option-cases shell.keypair) [
          | inl e ↦ rw (e, handle_set_command) tt
          | inr (pair, e) ↦ rw (e, handle_set_command) (send_set-Returns key new pair shell h)
        ]

    module _ (stored : (hash : Bytes) → storage.get_transaction_receipt hash store ≢ panic) where
      pub handle_command-Returns :
          (name : Text) (args : List Text) (shell : Shell d S)
          → IsAnswerable d (name ∷ args)
          → IsReady d s store shell
          → Returns d (handle_command d storage (name ∷ args) shell)
      unfolding handle_command
      handle_command-Returns name args shell fits h =
          let words = name ∷ args in
          let P = Returns d in
          if-both P (bytes_beq name (ascii "user")) (λ _. handle_user_command-Returns words shell)
            (if-both P (bytes_beq name (ascii "set"))
              (λ _. handle_set_command-Returns words shell h)
              (if-both P (bytes_beq name (ascii "get"))
                (λ _. handle_get_command-Returns words shell)
                (if-both P (bytes_beq name (ascii "query_txn"))
                  (λ is. handle_query_txn_command-Returns stored name args shell fits is h)
                  (if-both P (bytes_beq name (ascii "help")) (λ _. tt)
                    (if-both P (bytes_beq name (ascii "?")) (λ _. tt)
                      (if-both P (bytes_beq name (ascii "exit")) (λ _. tt) tt))))))
