-- ===== src/Shell/SetGet.antt =====
-- From `set` to `get`: app/shell.rs, txpool/mempool.rs and executor/executor.rs together.
use gravity_kvstore.Prelude.{
  ◌+◌, ◌<◌, ◌≡◌, refl, ap, sym, subst, Text, bytes_eq, bytes_beq_refl, some, List, [], ◌∷◌, ok,
  arith, u64_mod,
}
use gravity_kvstore.Dict
use gravity_kvstore.Types.{
  AccountState, Transaction, UnsignedTransaction, set_kv, TransactionReceipt,
  TransactionWithAccount,
}
use gravity_kvstore.Types.Deps.{Deps, HexLaws, KeccakLaws, BincodeLaws, SecpLaws}
use gravity_kvstore.Types.Convert.{sequence_number}
use gravity_kvstore.Crypto.{KeyPair, public_key_to_address}
use gravity_kvstore.Crypto.Signing.{verify-sign, sign_transaction-same}
use gravity_kvstore.State.{State, get_account}
use gravity_kvstore.Mempool.{add_raw_txn}
use gravity_kvstore.Mempool.WellFormed.{IsWellFormed}
use gravity_kvstore.Mempool.Holds.{Holds, add_raw_txn-Holds}
use gravity_kvstore.Executor.{sender_state, execute_next}
use gravity_kvstore.Executor.Runs.{set_runs}
use gravity_kvstore.Executor.Set.{set_writes}
use gravity_kvstore.Server.{get_value, Context}
use gravity_kvstore.Server.Submit.{account_of, raw_txn_key-address}
use gravity_kvstore.Shell.{
  Shell, transaction_sent, value, say, nonce_or_zero, get_line, send_set, handle_set_command,
}

pub nonce-sender_state : (a : Text) (s : State) → (sender_state a s).nonce ≡ nonce_or_zero a s
unfolding sender_state
nonce-sender_state a s = ground arith

get_line-lookup :
    (key found a : Text) (s : State) (account : AccountState)
    → get_account a s ≡ some account
    → Dict.lookup key account.kv_store ≡ some found
    → get_line key a s ≡ value found
unfolding get_line
get_line-lookup key found a s account e e' = ground arith

pub get_value-lookup :
    {S : Type 0} (key found a : Text) (c : Context S) (account : AccountState)
    → get_account a c.state ≡ some account
    → Dict.lookup key account.kv_store ≡ some found
    → get_value a key c ≡ ok found
unfolding get_value
get_value-lookup key found a c account e e' = ground arith

module _ (d : Deps) where
  -- A user of the shell, by the secret key.
  abbrev pub user : d.SecretKey → KeyPair d
  user secret = record { secret_key = secret; public_key = d.public_key_from_secret_key secret }

  abbrev pub address_of : d.SecretKey → Text
  address_of secret = public_key_to_address d (d.public_key_from_secret_key secret)

  -- What `set` signs.
  abbrev pub set_of : Text → Text → d.SecretKey → State → UnsignedTransaction
  set_of key new secret s = record {
    nonce = nonce_or_zero (address_of secret) s;
    kind = set_kv key new;
  }

module _ (d : Deps) (hex : HexLaws d) (sha : KeccakLaws d) (bincode : BincodeLaws d)
    (secp : SecpLaws d) where
  -- With packages that keep their laws, a user whose next nonce fits in a `u64` and who sets a
  -- key, in a shell whose pool is well formed, sends a transaction of that user: the shell says
  -- that it was sent, with its hash; the pool holds it; it is executed in the shell's state,
  -- whatever that is; and in the state after, the shell and the server find the new value under
  -- the key.
  pub set_then_get :
      {S : Type 0} (name key new : Text) (rest : List Text) (shell : Shell d S)
      (secret : d.SecretKey)
      → shell.keypair ≡ some (user d secret)
      → IsWellFormed shell.context.mempool
      → nonce_or_zero (address_of d secret) shell.context.state + 1 < u64_mod
      → let (lines, shell') = handle_set_command d (name ∷ key ∷ new ∷ rest) shell in
        (t : TransactionWithAccount) × (r : TransactionReceipt) × (s' : State) × (t.txn.unsigned
          ≡ set_of d key new secret shell.context.state)
        × (lines
            ≡ ok (transaction_sent (d.hex_encode (d.keccak (bincode.encoded t.txn.unsigned))) ∷ []))
        × Holds
            (account_of d hex sha bincode (d.public_key_from_secret_key secret))
            t
            shell'.context.mempool
        × (execute_next d t shell.context.state ≡ (ok (r ∷ []), s'))
        × (get_line key (address_of d secret) s' ≡ value new)
        × (get_value (address_of d secret) key (record (shell'.context) { state = s' }) ≡ ok new)
  unfolding handle_set_command send_set sequence_number
  set_then_get name key new rest shell secret known w fits =
      let s = shell.context.state in
      let a = address_of d secret in
      let unsigned = set_of d key new secret s in
      let (signature, signed, verified) = verify-sign d hex sha bincode secp unsigned secret in
      let signed' =
        sign_transaction-same d hex sha bincode secp {F = Unit {0}} unsigned secret signed in
      let txn : Transaction = record { unsigned = unsigned; signature = signature } in
      let t : TransactionWithAccount = record { txn = txn; address = a } in
      let (sent, holds) =
        add_raw_txn-Holds d (Unit {0}) t shell.context.mempool
          (account_of d hex sha bincode (d.public_key_from_secret_key secret))
          (d.keccak (bincode.encoded unsigned)) w fits
          (raw_txn_key-address d hex sha bincode (Unit {0}) (d.public_key_from_secret_key secret)
            txn) in
      let next : (sender_state a s).nonce + 1 < u64_mod = omega (arith, nonce-sender_state a s) in
      let (r, s', runs) =
        set_runs d bincode t a key new s verified refl (sym (nonce-sender_state a s)) fits in
      let (account, found, _, _, looked) =
        set_writes d t a key new s s' a key verified refl next runs in
      let there : get_account a s' ≡ some account = ground (arith, bytes_beq_refl a) in
      let read : Dict.lookup key account.kv_store ≡ some new = ground (arith, bytes_beq_refl key) in
      let pool = (add_raw_txn d {E = Unit {0}} t shell.context.mempool).1 in
      let ran : handle_set_command d (name ∷ key ∷ new ∷ rest) shell
          ≡ say d (transaction_sent (d.hex_encode (d.keccak (bincode.encoded unsigned))))
              (record shell { context = record (shell.context) { mempool = pool } }) =
        ground arith in
      (
        t,
        r,
        s',
        refl,
        ap (λ q. q.0) ran,
        subst
            (λ q.
              Holds (account_of d hex sha bincode (d.public_key_from_secret_key secret)) t
                q.1.context.mempool)
            (sym ran) holds,
        runs,
        get_line-lookup key new a s' account there read,
        get_value-lookup key new a _ account there read,
      )
