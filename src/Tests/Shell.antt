-- ===== src/Tests/Shell.antt =====
-- Runs of the loop of app/shell.rs.
use gravity_kvstore.Prelude.{
  ℕ, ◌+◌, ◌<◌, ◌≡◌, ◌≢◌, refl, arith, All, Text, Bytes, bytes_eq, none, panic, List, [], ◌∷◌, ok,
  u64_mod, replicate, ascii,
}
use gravity_kvstore.Types.{AccountState, StateRoot}
use gravity_kvstore.State.{get_account}
use gravity_kvstore.Mempool.{new}
use gravity_kvstore.Storage.Sled.{sled_storage, get_transaction_receipt}
use gravity_kvstore.Shell.{Shell}
use gravity_kvstore.Shell.Words.{
  white, trim_start, trim_end, trim, split, split_whitespace, words_of,
}
use gravity_kvstore.Mempool.Holds.{Holds}
use gravity_kvstore.Shell.Keeps.{HasNonces, IsReady}
use gravity_kvstore.Shell.Loop.{Event, read, end_of_file, panicked, rounds}
use gravity_kvstore.Shell.Commands.{IsHarmless}
use gravity_kvstore.Shell.Safe.{rounds-Survives}
use gravity_kvstore.Samples.Database.{database}
use gravity_kvstore.Samples.Packages.{
  packages, hex_laws, keccak_laws, bincode_laws, secp_laws, result_laws,
}
use gravity_kvstore.Tests.Fixtures.{alice, rich, genesis}
use gravity_kvstore.Tests.Tasks.{kv}

-- White space around and between the words, a no-break space among it.
spaced : words_of (32 ∷ 9 ∷ 0x61 ∷ 0xc2 ∷ 0xa0 ∷ 32 ∷ 0x62 ∷ 10 ∷ []) ≡ ascii "a" ∷ ascii "b" ∷ []
unfolding white trim_start trim_end trim split split_whitespace words_of
spaced = refl

abbrev shell : Shell packages database.Db
shell = record { context = record { state = genesis; store = []; mempool = new }; keypair = none }

-- A user, a key that is set, and CTRL-D.
abbrev pub session : List Event
session = read (ascii "user 01") (ok tt) ∷ read (ascii "set k v") (ok tt) ∷ end_of_file ∷ []

session-IsHarmless : All (IsHarmless packages) session
unfolding white trim_start trim_end trim split split_whitespace words_of
session-IsHarmless = ((refl, refl), ((refl, refl), (tt, tt)))

one-HasNonces :
    (id : Text) (account : AccountState) (number : ℕ) (root : StateRoot)
    → account.nonce + 1 < u64_mod
    → HasNonces (record { accounts = (id, account) ∷ []; block_number = number; state_root = root })
unfolding get_account
one-HasNonces id account number root fits a = ground arith

pub genesis-HasNonces : HasNonces genesis
genesis-HasNonces = one-HasNonces alice rich 0 (record { bytes = replicate 32 0 }) (omega arith)

no_receipt : (hash : Bytes) → kv.get_transaction_receipt hash [] ≢ panic
unfolding sled_storage get_transaction_receipt
no_receipt hash e = cc

shell-IsReady : IsReady packages genesis [] shell
unfolding new
shell-IsReady = (refl, refl, tt)

rounds-Survives_example :
    let (out, end, shell') = rounds packages kv session shell in
    (end ≢ panicked) × IsReady packages genesis [] shell'
rounds-Survives_example =
    rounds-Survives packages result_laws kv genesis [] hex_laws keccak_laws bincode_laws secp_laws
      genesis-HasNonces no_receipt session shell session-IsHarmless shell-IsReady
