-- ===== src/Tests/Fixtures.antt =====
-- Accounts, transactions and states of the tests.
use gravity_kvstore.Prelude.{ℕ, Text, Bytes, [], ◌∷◌, ◌++◌, replicate, ascii}
use gravity_kvstore.Types.{AccountState, TransactionKind, transfer, set_kv, TransactionWithAccount}
use gravity_kvstore.State.{State, update_account_state}
use gravity_kvstore.Executor.Block.{ExternalBlock}
use gravity_kvstore.Samples.Packages.{packages}
use gravity_kvstore.Samples.Wire.{write_txn}
use gravity_kvstore.Mempool.{Pool, waiting}
use gravity_kvstore.Samples.Hex.{encode}

-- The addresses of the keys `true` and `false`.
abbrev pub alice : Text
alice = encode (replicate 19 0 ++ 1 ∷ [])

abbrev pub bob : Text
bob = encode (replicate 20 0)

abbrev pub alice_account : Bytes
alice_account = replicate 31 0 ++ 1 ∷ []

-- The signature of alice.
abbrev pub by_alice : Text
by_alice = encode (replicate 63 0 ++ 1 ∷ 27 ∷ [])

abbrev pub signed : ℕ → TransactionKind → TransactionWithAccount
signed nonce kind = record {
  txn = record { unsigned = record { nonce = nonce; kind = kind }; signature = by_alice };
  address = alice;
}

abbrev pub pay : TransactionWithAccount
pay = signed 0 (transfer bob 100)

abbrev pub pay_self : TransactionWithAccount
pay_self = signed 0 (transfer alice 100)

abbrev pub put : TransactionWithAccount
put = signed 0 (set_kv (ascii "k") (ascii "v"))

abbrev pub rich : AccountState
rich = record { nonce = 0; balance = 1000; kv_store = [] }

abbrev pub genesis : State
genesis = record {
  accounts = (alice, rich) ∷ [];
  block_number = 0;
  state_root = record { bytes = replicate 32 0 };
}

-- A pool in which the transaction after the first waits.
abbrev pub gap : Pool
gap = record {
  water_mark = [];
  mempool =
      (alice_account, (1, record { raw_txn = signed 1 (transfer bob 7); status = waiting }) ∷ [])
      ∷ [];
}

-- The state after `pay`.
abbrev pub after_pay : State
after_pay =
    update_account_state packages (record { text = alice })
      (record { nonce = 1; balance = 900; kv_store = [] })
      (update_account_state packages (record { text = bob })
        (record { nonce = 0; balance = 100; kv_store = [] }) genesis)

-- A block that orders `pay`.
abbrev pub ordered : ExternalBlock packages
ordered = record {
  block_id = [];
  block_number = 1;
  usecs = 5;
  txns = record { bytes = write_txn pay; sender = alice_account; seq_number = 0; hash = [] } ∷ [];
}
