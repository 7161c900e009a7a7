-- ===== src/Server.antt =====
-- app/server.rs: the three handlers, and the errors as responses. Logging, routing and JSON are
-- poem's and serde_json's.
pub mod Submit
pub mod App
pub mod Keeps
pub mod Accepts
use gravity_kvstore.Prelude.{
  ℕ, ◌==◌, if◌then◌else◌, Text, Bytes, bytes_eq, ◌++◌, Outcome, ok, err, map_err, ok_or, ◌>>=◌,
  continue, length, ascii,
}
use gravity_kvstore.Dict
use gravity_kvstore.Types.{Transaction, TransactionReceipt}
use gravity_kvstore.Types.Deps.{Deps}
use gravity_kvstore.Crypto.{
  SignatureError, invalid_message, invalid_signature_hex, invalid_signature_length,
  invalid_recoverable_signature, failed_to_recover, verify_signature,
}
use gravity_kvstore.State.{State, get_account}
use gravity_kvstore.Storage.{Storage}
use gravity_kvstore.Mempool.{Pool, add_raw_txn}

-- The strings that `verify_signature` returns as errors.
unfoldable pub signature_message : SignatureError → Text
signature_message (invalid_message e) = ascii "Invalid message: " ++ e
signature_message (invalid_signature_hex e) = ascii "Invalid signature hex: " ++ e
signature_message invalid_signature_length = ascii "Invalid signature length"
signature_message invalid_recoverable_signature = ascii "Invalid recoverable signature"
signature_message failed_to_recover = ascii "Failed to recover public key"

pub data TransactionError : Type 0 where
  serialization_error : Text → TransactionError
  invalid_signature : Text → TransactionError
  transaction_not_found account_not_found key_not_found : TransactionError
  invalid_transaction_hash : TransactionError

-- A response of `into_response`: the status, and the field "error" of its body. The handlers do
-- not make one: their errors go through `ResponseError`.
pub record Response : Type 0 where
  pub status : ℕ
  pub error : Text

unfoldable pub into_response : TransactionError → Response
into_response (serialization_error e) = record { status = 500; error = e }
into_response (invalid_signature e) = record { status = 500; error = e }
into_response transaction_not_found = record { status = 404; error = ascii "Transaction not found" }
into_response account_not_found = record { status = 404; error = ascii "Account not found" }
into_response key_not_found = record { status = 404; error = ascii "Key not found" }
into_response invalid_transaction_hash = record {
  status = 500;
  error = ascii "Invalid transaction hash";
}

-- The text of an error, as `thiserror` has it from the `#[error(…)]` lines.
unfoldable pub display : TransactionError → Text
display (serialization_error e) = ascii "Failed to serialize transaction: " ++ e
display (invalid_signature e) = ascii "Failed to verify signature: " ++ e
display transaction_not_found = ascii "Transaction hash not found"
display account_not_found = ascii "Account not found"
display key_not_found = ascii "Key not found"
display invalid_transaction_hash = ascii "Invalid transaction hash"

-- `ResponseError::status`
unfoldable pub error_status : TransactionError → ℕ
error_status (serialization_error e) = 500
error_status (invalid_signature e) = 500
error_status transaction_not_found = 404
error_status account_not_found = 404
error_status key_not_found = 404
error_status invalid_transaction_hash = 500

-- It is declared by the code, and not used in it.
pub record TransactionReceiptResponse : Type 0 where
  pub status : Text
  pub message : TransactionReceipt

pub record Context (S : Type 0) : Type 0 where
  pub state : State
  pub store : S
  pub mempool : Pool

-- The body of a successful `add_txn`.
pub record AddReply : Type 0 where
  pub status : Text
  pub txn_hash : Text

module _ (d : Deps) where
  unfoldable pub add_txn :
      {S : Type 0} → Transaction → Context S → Outcome TransactionError AddReply × Context S
  add_txn transaction context =
      continue
        (
          map_err (λ e. invalid_signature (signature_message e)) (verify_signature d transaction),
          context,
        )
        λ account_address c.
          let (sent, pool) =
            add_raw_txn d {E = TransactionError}
              (record { txn = transaction; address = account_address }) c.mempool in
          continue (sent, record c { mempool = pool })
            λ txn_hash c'.
              (ok (record { status = ascii "success"; txn_hash = d.hex_encode txn_hash }), c')

  unfoldable pub parse_transaction_hash : Text → Outcome TransactionError Bytes
  parse_transaction_hash hash =
      map_err (λ _. invalid_transaction_hash) (d.hex_decode hash) >>= λ bytes.
      if length bytes == 32 then ok bytes else err invalid_transaction_hash

  -- `serde_json::to_value` is the argument `to_value`.
  unfoldable pub get_receipt :
      {S Value : Type 0}
      → Storage S
      → (TransactionReceipt → Outcome Text Value)
      → Text
      → Context S
      → Outcome TransactionError Value
  get_receipt storage to_value transaction_hash context = do
    hash ← parse_transaction_hash transaction_hash
    found ←
        map_err (λ _. invalid_transaction_hash) (storage.get_transaction_receipt hash context.store)
    receipt ← ok_or transaction_not_found found
    map_err serialization_error (to_value receipt)

unfoldable pub get_value : {S : Type 0} → Text → Text → Context S → Outcome TransactionError Text
get_value account_address key context =
    ok_or account_not_found (get_account account_address context.state) >>= λ account.
    ok_or key_not_found (Dict.lookup key account.kv_store)
