-- ===== src/Tests/Mempool.antt =====
-- Runs of txpool/mempool.rs.
use gravity_kvstore.Prelude.{
  ℕ, ◌≤◌, ◌≡◌, refl, arith, bytes_eq, nat_eq, none, some, [], ◌∷◌, ok, true, false, ◌⊎◌, leb, ltb,
  ◌&&◌, if◌then◌else◌,
}
use gravity_kvstore.Dict
use gravity_kvstore.BTree
use gravity_kvstore.BTree.{BTree}
use gravity_kvstore.Types.{transfer}
use gravity_kvstore.Types.Convert.{account, sequence_number, convert_account}
use gravity_kvstore.Crypto.{compute_transaction_hash}
use gravity_kvstore.Mempool.{MempoolTxn, pending, waiting, add_raw_txn, raw_txn_key}
use gravity_kvstore.Mempool.WellFormed.{IsWellFormed, add_raw_txn-IsWellFormed}
use gravity_kvstore.Mempool.Add.{mark_of, entries_with, add_raw_txn-marks}
use gravity_kvstore.Mempool.Order.{present, add_raw_txn-order}
use gravity_kvstore.Mempool
use gravity_kvstore.Mempool.Handle
use gravity_kvstore.Mempool.Handle.{Call, raw, removal, best, all_called, all_called_alone}
use gravity_kvstore.Mempool.Handle.Lives.{all_called-lives}
use gravity_kvstore.Prelude.{List}
use gravity_kvstore.Mempool.Verified.{answering, add_verified_txn-add_raw_txn}
use gravity_kvstore.Types.Convert.{into_verified}
use gravity_kvstore.Samples.Packages.{Verified, json_laws, verified_laws}
use gravity_kvstore.Mempool.{new, process_txn, add_verified_txn}
use gravity_kvstore.Mempool.Concurrent
use gravity_kvstore.Mempool.Concurrent.Settles.{Run-settles}
use gravity_kvstore.Mempool.Concurrent.{Shared, process, awaits, Run, start, next, put_raw, finish}
use gravity_kvstore.Types.{TransactionWithAccount}
use gravity_kvstore.Samples.Packages.{packages, bincode_laws}
use gravity_kvstore.Tests.Fixtures.{bob, alice_account, pay, gap, signed}

-- One account's entries, 0 and 1 and 3.
abbrev three : BTree MempoolTxn
three =
    (0, record { raw_txn = pay; status = waiting })
    ∷ (1, record { raw_txn = signed 1 (transfer bob 7); status = waiting })
    ∷ (3, record { raw_txn = signed 3 (transfer bob 7); status = waiting })
    ∷ []

gap-IsWellFormed : IsWellFormed gap
unfolding sequence_number
gap-IsWellFormed = omega arith

add_raw_txn-IsWellFormed_example : IsWellFormed (add_raw_txn packages {E = ⊥} pay gap).1
unfolding sequence_number
add_raw_txn-IsWellFormed_example =
    add_raw_txn-IsWellFormed packages ⊥ pay gap (omega arith) gap-IsWellFormed

-- The number 0 comes in under the waiting 1: both are pending, and the mark is 2.
add_raw_txn-marks_example :
    let (result, pool') = add_raw_txn packages {E = ⊥} pay gap in
    (mark : ℕ) × (after : BTree MempoolTxn) × (result
      ≡ ok (packages.keccak (bincode_laws.encoded pay.txn.unsigned)))
    × (Dict.lookup alice_account pool'.water_mark ≡ some mark)
    × (Dict.lookup alice_account pool'.mempool ≡ some after)
    × (0 ≤ mark)
    × (BTree.lookup mark (entries_with alice_account pay gap) ≡ none)
    × (BTree.lookup 1 after ≡ (
        if leb 0 1 && ltb 1 mark
        then some (record { raw_txn = signed 1 (transfer bob 7); status = pending })
        else some (record { raw_txn = signed 1 (transfer bob 7); status = waiting })))
unfolding sequence_number account convert_account raw_txn_key compute_transaction_hash
add_raw_txn-marks_example =
    add_raw_txn-marks packages ⊥ pay gap alice_account
      (packages.keccak (bincode_laws.encoded pay.txn.unsigned)) 1 alice_account gap-IsWellFormed
      (omega arith) refl

new-IsWellFormed : IsWellFormed new
unfolding new
new-IsWellFormed = tt

add_raw_txn-order_example :
    let t = signed 1 (transfer bob 7) in
    let there = (add_raw_txn packages {E = ⊥} t (add_raw_txn packages {E = ⊥} pay new).1).1 in
    let back = (add_raw_txn packages {E = ⊥} pay (add_raw_txn packages {E = ⊥} t new).1).1 in
    (mark_of alice_account there ≡ mark_of alice_account back)
    × (present alice_account 1 there ≡ present alice_account 1 back)
unfolding sequence_number account convert_account raw_txn_key compute_transaction_hash
add_raw_txn-order_example =
    add_raw_txn-order packages ⊥ pay (signed 1 (transfer bob 7)) new alice_account
      (packages.keccak (bincode_laws.encoded pay.txn.unsigned))
      (packages.keccak (bincode_laws.encoded (signed 1 (transfer bob 7)).txn.unsigned)) 1
      new-IsWellFormed (omega arith) (omega arith) refl refl

-- Two additions to one account, mixed: both put their entries in before the first goes on.
abbrev pay_next : TransactionWithAccount
pay_next = signed 1 (transfer bob 7)

abbrev both_put : Shared
both_put =
    Concurrent.put alice_account pay_next
      (Concurrent.put alice_account pay (record { pool = new; calls = [] }))

abbrev mixed : Shared
mixed = process packages ⊥ (alice_account ∷ []) alice_account [] both_put.pool

mixed_run : Run packages ⊥ (record { pool = new; calls = [] }) mixed
unfolding sequence_number account convert_account raw_txn_key compute_transaction_hash
mixed_run =
    let first : Shared = record { pool = new; calls = [] } in
    next
      (next
        (next start (
          put_raw first pay alice_account (packages.keccak (bincode_laws.encoded pay.txn.unsigned))
            refl (omega arith)))
        (put_raw (Concurrent.put alice_account pay first) pay_next alice_account
          (packages.keccak (bincode_laws.encoded pay_next.txn.unsigned)) refl (omega arith)))
      (finish (alice_account ∷ []) [] alice_account both_put.pool)

Run-settles_example :
    IsWellFormed mixed.pool
    × (((awaits alice_account mixed.calls ≡ true)
          × ((process_txn packages {E = ⊥} alice_account mixed.pool).0 ≡ ok tt))
        ⊎ ((awaits alice_account mixed.calls ≡ false)
            × (present alice_account (mark_of alice_account mixed.pool) mixed.pool ≡ false)))
Run-settles_example = Run-settles packages ⊥ alice_account mixed_run

add_verified_txn-add_raw_txn_example :
    (v : Verified) × (into_verified packages {E = ⊥} pay ≡ ok v)
    × (add_verified_txn packages {E = ⊥} v [] gap
        ≡ answering [] (add_raw_txn packages {E = ⊥} pay gap))
unfolding account convert_account raw_txn_key compute_transaction_hash
add_verified_txn-add_raw_txn_example =
    add_verified_txn-add_raw_txn packages ⊥ json_laws verified_laws pay alice_account
      (packages.keccak (bincode_laws.encoded pay.txn.unsigned)) [] gap refl

-- Two additions, the entries handed out, and a removal.
abbrev handle_calls : List (Call packages)
handle_calls = raw pay ∷ raw (signed 1 (transfer bob 7)) ∷ best none ∷ removal alice_account 0 ∷ []

all_called-lives_example :
    all_called packages handle_calls Handle.new
    ≡ record { pool = all_called_alone packages handle_calls Mempool.new; poisoned = false }
unfolding sequence_number
all_called-lives_example = all_called-lives packages handle_calls (omega arith)
