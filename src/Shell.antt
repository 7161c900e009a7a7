-- ===== src/Shell.antt =====
-- app/shell.rs: the commands of the interactive shell. What a command prints is a list of lines,
-- each a constructor with what it formats; reading and editing lines is rustyline's.
pub mod SetGet
pub mod Words
pub mod Read
pub mod Loop
pub mod Keeps
pub mod Commands
pub mod Safe
pub mod Session
use gravity_kvstore.Prelude.{
  ℕ, ◌-◌, ◌==◌, ltb, if◌then◌else◌, Text, Bytes, bytes_eq, bytes_beq, Option, none, some, List, [],
  ◌∷◌, ◌++◌, Outcome, ok, err, panic, continue, length, take, drop, ascii,
}
use gravity_kvstore.Dict
use gravity_kvstore.Types.{set_kv, UnsignedTransaction, TransactionWithAccount, TransactionReceipt}
use gravity_kvstore.Types.Deps.{Deps}
use gravity_kvstore.Crypto.{KeyPair, public_key_to_address, sign_transaction}
use gravity_kvstore.State.{State, get_account}
use gravity_kvstore.Storage.{Storage, StorageError}
use gravity_kvstore.Mempool.{add_raw_txn}
use gravity_kvstore.Server.{Context}

pub data Line : Type 0 where
  usage_user usage_set usage_get usage_query_txn : Line
  invalid_private_key_hex invalid_private_key : Text → Line
  switched_user : Text → Line
  no_user_context : Line
  transaction_sent : Text → Line
  value : Text → Line
  -- key, account
  key_not_found : Text → Text → Line
  account_not_found : Text → Line
  invalid_transaction_hash : Text → Line
  transaction_receipt : TransactionReceipt → Line
  receipt_not_found : Line
  storage_error : StorageError → Line
  unknown_command : Text → Line
  help : Line
  exiting : Line

unfoldable pub short_address : Text → Text
short_address address =
    if ltb 10 (length address)
    then take 6 address ++ ascii "..." ++ drop (length address - 4) address
    else address

abbrev pub nonce_or_zero : Text → State → ℕ
nonce_or_zero address state = elim (get_account address state) [
  | some account ↦ account.nonce
  | none ↦ 0
]

-- `handle_get_command` once the user is known.
unfoldable pub get_line : Text → Text → State → Line
get_line key address state = elim (get_account address state) [
  | some account ↦ elim (Dict.lookup key account.kv_store) [
    | some found ↦ value found
    | none ↦ key_not_found key address
  ]
  | none ↦ account_not_found address
]

-- `txn_hash.copy_from_slice(…)` panics unless there are 32 bytes.
unfoldable pub copy_hash : Bytes → Outcome (Unit {0}) Bytes
copy_hash bytes = if length bytes == 32 then ok bytes else panic

abbrev pub receipt_line : Outcome StorageError (Option TransactionReceipt) → Outcome (Unit {0}) Line
receipt_line (ok (some receipt)) = ok (transaction_receipt receipt)
receipt_line (ok none) = ok receipt_not_found
receipt_line (err e) = ok (storage_error e)
receipt_line panic = panic

module _ (d : Deps) (S : Type 0) where
  -- `Shell`, whose state, storage and pool are those of a `Context`.
  pub record Shell : Type 0 where
    pub context : Context S
    pub keypair : Option (KeyPair d)

  -- What a command prints, and the shell after it.
  abbrev pub Run : Type 0
  Run = Outcome (Unit {0}) (List Line) × Shell

module _ (d : Deps) {S : Type 0} where
  abbrev pub say : Line → Shell d S → Run d S
  say line shell = (ok (line ∷ []), shell)

  unfoldable pub prompt : Shell d S → Text
  prompt shell = elim shell.keypair [
    | some keypair ↦
        ascii "[" ++ short_address (public_key_to_address d keypair.public_key) ++ ascii "]>> "
    | none ↦ ascii ">> "
  ]

  unfoldable pub handle_user_command : List Text → Shell d S → Run d S
  handle_user_command (_ ∷ private_key_hex ∷ _) shell = elim (d.hex_decode private_key_hex) [
    | err e ↦ say (invalid_private_key_hex e) shell
    | panic ↦ (panic, shell)
    | ok private_key_bytes ↦ elim (d.secret_key_from_slice private_key_bytes) [
      | err e ↦ say (invalid_private_key e) shell
      | panic ↦ (panic, shell)
      | ok secret_key ↦
          let public_key = d.public_key_from_secret_key secret_key in
          say (switched_user (public_key_to_address d public_key)) (record shell {
            keypair = some (record { secret_key = secret_key; public_key = public_key });
          })
    ]
  ]
  handle_user_command _ shell = say usage_user shell

  -- `handle_set_command` once the user is known.
  unfoldable pub send_set : Text → Text → KeyPair d → Shell d S → Run d S
  send_set key new_value keypair shell =
      let address = public_key_to_address d keypair.public_key in
      let unsigned : UnsignedTransaction = record {
        nonce = nonce_or_zero address shell.context.state;
        kind = set_kv key new_value;
      } in
      continue (sign_transaction d unsigned keypair.secret_key, shell)
        λ signature sh.
          let txn : TransactionWithAccount = record {
            txn = record { unsigned = unsigned; signature = signature };
            address = address;
          } in
          let (sent, pool) = add_raw_txn d txn sh.context.mempool in
          continue (sent, record sh { context = record (sh.context) { mempool = pool } })
            λ txn_hash. say (transaction_sent (d.hex_encode txn_hash))

  unfoldable pub handle_set_command : List Text → Shell d S → Run d S
  handle_set_command (_ ∷ key ∷ new_value ∷ _) shell = elim shell.keypair [
    | some keypair ↦ send_set key new_value keypair shell
    | none ↦ say no_user_context shell
  ]
  handle_set_command _ shell = say usage_set shell

  unfoldable pub handle_get_command : List Text → Shell d S → Run d S
  handle_get_command (_ ∷ key ∷ _) shell = elim shell.keypair [
    | some keypair ↦
        say (get_line key (public_key_to_address d keypair.public_key) shell.context.state) shell
    | none ↦ say no_user_context shell
  ]
  handle_get_command _ shell = say usage_get shell

  unfoldable pub handle_query_txn_command : Storage S → List Text → Shell d S → Run d S
  handle_query_txn_command storage (_ ∷ hash ∷ _) shell = elim (d.hex_decode hash) [
    | err e ↦ say (invalid_transaction_hash e) shell
    | panic ↦ (panic, shell)
    | ok bytes ↦
        continue (copy_hash bytes, shell)
          λ txn_hash sh.
            continue (receipt_line (storage.get_transaction_receipt txn_hash sh.context.store), sh)
              say
  ]
  handle_query_txn_command storage _ shell = say usage_query_txn shell

  -- `args[0]` is there: the caller has tested that the line is not empty.
  unfoldable pub handle_command : Storage S → List Text → Shell d S → Run d S
  handle_command storage [] shell = (panic, shell)
  handle_command storage (name ∷ rest) shell =
      let args = name ∷ rest in
      if bytes_beq name (ascii "user")
      then handle_user_command args shell
      else if bytes_beq name (ascii "set")
      then handle_set_command args shell
      else if bytes_beq name (ascii "get")
      then handle_get_command args shell
      else if bytes_beq name (ascii "query_txn")
      then handle_query_txn_command storage args shell
      else if bytes_beq name (ascii "help")
      then say help shell
      else if bytes_beq name (ascii "?")
      then say help shell
      else if bytes_beq name (ascii "exit")
      then say exiting shell
      else (ok (unknown_command name ∷ help ∷ []), shell)
