-- ===== src/Tests/Node.antt =====
-- Runs of the node, from a request to the store.
use gravity_kvstore.Prelude.{◌≡◌, refl, arith, true, bytes_eq, nat_eq, none, [], ◌∷◌, ok, ascii}
use gravity_kvstore.Types.{Transaction}
use gravity_kvstore.Crypto.{
  SignatureError, sign_transaction, verify_signature, compute_transaction_hash, recover_signer,
  public_key_to_address,
}
use gravity_kvstore.Types.Convert.{
  account, convert_account, sequence_number, into_verified, to_bytes,
}
use gravity_kvstore.Server
use gravity_kvstore.Mempool
use gravity_kvstore.State.{get_account}
use gravity_kvstore.Mempool.{
  new, best_txns, best_of_all, best_of_account, add_raw_txn, raw_txn_key, process_txn, put_txn,
  promote,
}
use gravity_kvstore.Mempool.WellFormed.{IsWellFormed}
use gravity_kvstore.Shell.SetGet.{set_of, address_of}
use gravity_kvstore.Mempool.Handed.{Has}
use gravity_kvstore.Executor.{ExecuteError}
use gravity_kvstore.Executor.Node.{requested}
use gravity_kvstore.Executor.Node.Lifecycle.{IsCommitted, set_reaches_store}
use gravity_kvstore.Samples.Packages.{
  packages, hex_laws, keccak_laws, bincode_laws, secp_laws, json_laws, verified_laws, Verified,
}
use gravity_kvstore.Samples.Wire.{write_txn}
use gravity_kvstore.Tests.Fixtures.{alice_account, put, by_alice, genesis, ordered}
use gravity_kvstore.Tests.Tasks.{start, kv, kv-IsStorage}
use gravity_kvstore.Tests.Shell.{genesis-HasNonces}

-- What the pool hands out of `put`.
abbrev handed : Verified
handed =
    packages.verified_new (write_txn put) alice_account 0 0
      (packages.hash_to_fixed_array (write_txn put))

abbrev set_txn : Transaction
set_txn = record {
  unsigned = set_of packages (ascii "k") (ascii "v") true genesis;
  signature = by_alice;
}

signed_by_alice : sign_transaction packages {E = SignatureError} set_txn.unsigned true ≡ ok by_alice
unfolding sign_transaction compute_transaction_hash
signed_by_alice = refl

handed_out :
    best_txns packages {E = ExecuteError} none (requested packages kv set_txn start).pool
    ≡ ok (handed ∷ [])
unfolding best_txns best_of_all best_of_account Server.add_txn verify_signature
    compute_transaction_hash recover_signer public_key_to_address add_raw_txn raw_txn_key account
    convert_account Mempool.add_txn process_txn put_txn new promote sequence_number into_verified
    to_bytes get_account
handed_out = refl

start-IsWellFormed : IsWellFormed start.pool
unfolding new
start-IsWellFormed = tt

set_reaches_store_example :
    (v : packages.VerifiedTxn) × Has v (handed ∷ [])
    × IsCommitted packages hex_laws keccak_laws bincode_laws secp_laws kv kv-IsStorage
        (ascii "k")
        (ascii "v")
        true
        set_txn
        ordered
        1
        v
        (requested packages kv set_txn start)
set_reaches_store_example =
    set_reaches_store packages hex_laws keccak_laws bincode_laws secp_laws kv kv-IsStorage json_laws
      verified_laws (ascii "k") (ascii "v") by_alice true start ordered 1 {vs = handed ∷ []}
      signed_by_alice start-IsWellFormed
      (omega (arith, genesis-HasNonces (address_of packages true))) (omega arith) handed_out
