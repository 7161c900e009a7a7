-- ===== src/Tests/Server.antt =====
-- Runs of app/server.rs and app/shell.rs.
use gravity_kvstore.Prelude.{◌≡◌, refl, arith, true, Text, bytes_eq, some, [], ◌∷◌, ok, ascii}
use gravity_kvstore.Types.{Transaction, TransactionReceipt, TransactionWithAccount}
use gravity_kvstore.Crypto.{SignatureError, sign_transaction, public_key_to_address}
use gravity_kvstore.State.{State, get_account}
use gravity_kvstore.Mempool.{new}
use gravity_kvstore.Mempool.Holds.{Holds}
use gravity_kvstore.Executor.{execute_next}
use gravity_kvstore.Server.{Context, add_txn, get_value}
use gravity_kvstore.Server.Submit.{add_txn-Holds}
use gravity_kvstore.Shell.{Shell, transaction_sent, value, get_line, handle_set_command}
use gravity_kvstore.Shell.SetGet.{user, address_of, set_of, set_then_get}
use gravity_kvstore.Samples.Packages.{packages, hex_laws, keccak_laws, bincode_laws, secp_laws}
use gravity_kvstore.Tests.Fixtures.{alice, alice_account, pay, genesis}

abbrev context : Context (Unit {0})
context = record { state = genesis; store = tt; mempool = new }

add_txn-Holds_example :
    (signature : Text) × (sign_transaction packages {E = SignatureError} pay.txn.unsigned true
      ≡ ok signature)
    × (let txn : Transaction = record { unsigned = pay.txn.unsigned; signature = signature } in
        let (reply, c') = add_txn packages txn context in
        (reply
          ≡ ok (record {
            status = ascii "success";
            txn_hash =
                packages.hex_encode (packages.keccak (bincode_laws.encoded pay.txn.unsigned));
          }))
        × Holds alice_account (record { txn = txn; address = alice }) c'.mempool
        × (c'.state ≡ genesis)
        × (c'.store ≡ tt))
unfolding public_key_to_address new
add_txn-Holds_example =
    add_txn-Holds packages hex_laws keccak_laws bincode_laws secp_laws pay.txn.unsigned true context
      tt (omega arith)

abbrev shell : Shell packages (Unit {0})
shell = record { context = context; keypair = some (user packages true) }

set_then_get_example :
    let (lines, shell') =
      handle_set_command packages (ascii "set" ∷ ascii "k" ∷ ascii "v" ∷ []) shell in
    (t : TransactionWithAccount) × (r : TransactionReceipt) × (s' : State) × (t.txn.unsigned
      ≡ set_of packages (ascii "k") (ascii "v") true genesis)
    × (lines
        ≡ ok (
            transaction_sent
              (packages.hex_encode (packages.keccak (bincode_laws.encoded t.txn.unsigned)))
            ∷ []))
    × Holds alice_account t shell'.context.mempool
    × (execute_next packages t genesis ≡ (ok (r ∷ []), s'))
    × (get_line (ascii "k") (address_of packages true) s' ≡ value (ascii "v"))
    × (get_value (address_of packages true) (ascii "k") (record (shell'.context) { state = s' })
        ≡ ok (ascii "v"))
unfolding public_key_to_address get_account new
set_then_get_example =
    set_then_get packages hex_laws keccak_laws bincode_laws secp_laws (ascii "set") (ascii "k")
      (ascii "v") [] shell true refl tt (omega arith)
