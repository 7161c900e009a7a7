-- ===== src/Server/App.antt =====
-- `ServerApp` of app/server.rs: the routes, and a request from its body to its reply.
use gravity_kvstore.Prelude.{
  ℕ, if◌then◌else◌, Bool, Text, Bytes, bytes_beq, Option, none, some, Outcome, ok, err, panic,
  ascii, continue,
}
use gravity_kvstore.Types.{Transaction, TransactionReceipt}
use gravity_kvstore.Types.Deps.{Deps}
use gravity_kvstore.Memory.{Memory, Handles, load, save}
use gravity_kvstore.Storage.{Storage}
use gravity_kvstore.Server.{
  Context, TransactionError, error_status, display, AddReply, add_txn, get_receipt, get_value,
}

-- `ServerApp::new`, of three `Arc`s
unfoldable pub new : ℕ → ℕ → ℕ → Handles
new state store mempool = record { state = state; store = store; mempool = mempool }

-- The handlers, each behind `poem::post`.
pub data Endpoint : Type 0 where
  post_add_txn post_get_receipt post_get_value : Endpoint

-- The `Route` of `start`.
unfoldable pub route : Text → Option Endpoint
route path =
    if bytes_beq path (ascii "/add_txn")
    then some post_add_txn
    else if bytes_beq path (ascii "/get_receipt")
    then some post_get_receipt
    else if bytes_beq path (ascii "/get_value")
    then some post_get_value
    else none

-- poem and serde_json: the `Json` extractor at the types of the handlers, which refuses a body or
-- gives its value, and `to_value` of a receipt.
pub record Web (Value : Type 0) : Type 0 where
  pub json_transaction : Bytes → Option Transaction
  pub json_hash : Bytes → Option Text
  pub json_pair : Bytes → Option (Text × Text)
  pub to_value : TransactionReceipt → Outcome Text Value

-- A reply: of a handler, or poem's own, to a path, a method or a body that it does not take.
pub data Reply (Value : Type 0) : Type 0 where
  added : AddReply → Reply Value
  receipt : Value → Reply Value
  value : Text → Reply Value
  -- status, text
  failed : ℕ → Text → Reply Value
  not_found method_not_allowed refused : Reply Value

-- A handler returns a `poem::Result`: an `Err` becomes the reply of `ResponseError`, with the
-- status and the text of the error.
unfoldable pub reply_of :
    {A Value : Type 0}
    → (A → Reply Value)
    → Outcome TransactionError A
    → Outcome (Unit {0}) (Reply Value)
reply_of reply (ok a) = ok (reply a)
reply_of reply (err e) = ok (failed (error_status e) (display e))
reply_of reply panic = panic

module _ (d : Deps) {S Value : Type 0} (storage : Storage S) (web : Web Value) where
  -- A handler behind its extractor.
  unfoldable pub handle :
      Endpoint → Bytes → Context S → Outcome (Unit {0}) (Reply Value) × Context S
  handle post_add_txn body context = elim (web.json_transaction body) [
    | none ↦ (ok refused, context)
    | some transaction ↦
        let (result, context') = add_txn d transaction context in (reply_of added result, context')
  ]
  handle post_get_receipt body context = elim (web.json_hash body) [
    | none ↦ (ok refused, context)
    | some hash ↦ (reply_of receipt (get_receipt d storage web.to_value hash context), context)
  ]
  handle post_get_value body context = elim (web.json_pair body) [
    | none ↦ (ok refused, context)
    | some (address, key) ↦ (reply_of value (get_value address key context), context)
  ]

  -- A request to `app`: whether its method is POST, its path and its body.
  unfoldable pub serve :
      Bool → Text → Bytes → Context S → Outcome (Unit {0}) (Reply Value) × Context S
  serve is_post path body context = elim (route path) [
    | none ↦ (ok not_found, context)
    | some endpoint ↦
        if is_post then handle endpoint body context else (ok method_not_allowed, context)
  ]

  -- A request to the server of these addresses.
  unfoldable pub serve_at :
      Handles → Bool → Text → Bytes → Memory S → Outcome (Unit {0}) (Reply Value) × Memory S
  serve_at handles is_post path body memory =
      continue (load handles memory, memory)
        λ context memory'.
          let (reply, context') = serve is_post path body context in
          (reply, save handles context' memory')
