-- ===== src/Tests/Requests.antt =====
-- Requests to the routes of app/server.rs, and a hash that app/shell.rs cannot take.
use gravity_kvstore.Prelude.{
  ◌≡◌, ◌⊎◌, refl, arith, true, bytes_eq, Text, none, some, [], ◌∷◌, ok, err, panic, ascii,
}
use gravity_kvstore.Crypto.{sign_transaction, compute_transaction_hash, public_key_to_address}
use gravity_kvstore.Mempool.{new}
use gravity_kvstore.Mempool.WellFormed.{IsWellFormed}
use gravity_kvstore.Mempool.Holds.{Holds}
use gravity_kvstore.Server.{Context, get_receipt, parse_transaction_hash, invalid_transaction_hash}
use gravity_kvstore.Server.Submit.{account_of}
use gravity_kvstore.Server.App.{Web, added, serve}
use gravity_kvstore.Server.Accepts.{IsAddition, serve_changes, serve-Holds}
use gravity_kvstore.Shell.{Shell, handle_query_txn_command, copy_hash}
use gravity_kvstore.Executor.Node.{context_of}
use gravity_kvstore.Samples.Database.{database}
use gravity_kvstore.Samples.Packages.{packages, hex_laws, keccak_laws, bincode_laws, secp_laws}
use gravity_kvstore.Samples.Hex.{encode}
use gravity_kvstore.Samples.Wire.{write_txn, read_txn}
use gravity_kvstore.Tests.Fixtures.{put}
use gravity_kvstore.Tests.Tasks.{start, kv}

abbrev context : Context database.Db
context = context_of start

abbrev shell : Shell packages database.Db
shell = record { context = context; keypair = none }

-- A hash in hex that has one byte: the server answers with an error, and the shell panics.
abbrev short_hash : Text
short_hash = encode (1 ∷ [])

short_hash_refused :
    get_receipt packages kv (λ r. ok r.transaction_hash) short_hash context
    ≡ err invalid_transaction_hash
unfolding get_receipt parse_transaction_hash
short_hash_refused = refl

short_hash_panics :
    handle_query_txn_command packages kv (ascii "query_txn" ∷ short_hash ∷ []) shell
    ≡ (panic, shell)
unfolding handle_query_txn_command copy_hash
short_hash_panics = refl

-- Bodies that are read as any transaction of `read_txn`, and receipts without a value.
abbrev pub web : Web (Unit {0})
web = record {
  json_transaction = λ body. some (read_txn body).txn;
  json_hash = λ body. some body;
  json_pair = λ body. none;
  to_value = λ r. ok tt;
}

new-IsWellFormed : IsWellFormed new
unfolding new
new-IsWellFormed = tt

serve-Holds_example :
    let (reply, c') = serve packages kv web true (ascii "/add_txn") (write_txn put) context in
    (reply
      ≡ ok (
          added (record {
            status = ascii "success";
            txn_hash =
                packages.hex_encode (packages.keccak (bincode_laws.encoded put.txn.unsigned));
          })))
    × Holds
        (account_of packages hex_laws keccak_laws bincode_laws true)
        (record { txn = put.txn; address = public_key_to_address packages true })
        c'.mempool
    × (c'.state ≡ context.state)
    × (c'.store ≡ context.store)
unfolding read_txn write_txn sign_transaction compute_transaction_hash
serve-Holds_example =
    serve-Holds packages kv web hex_laws keccak_laws bincode_laws secp_laws put.txn.unsigned
      put.txn.signature true (write_txn put) context refl refl new-IsWellFormed (omega arith)

-- A transaction that is sent to the wrong path.
serve_changes_example :
    let c' = (serve packages kv web true (ascii "/get_value") (write_txn put) context).1 in
    (c' ≡ context)
    ⊎ ((true ≡ true)
        × (ascii "/get_value" ≡ ascii "/add_txn")
        × IsAddition packages kv web (write_txn put) context c')
serve_changes_example =
    serve_changes packages kv web true (ascii "/get_value") (write_txn put) context
