-- ===== src/Executor/Node/Lifecycle.antt =====
-- From the client to the store: app/server.rs, txpool/mempool.rs, executor/executor.rs and
-- state/storage.rs together.
use gravity_kvstore.Prelude.{
  ℕ, ◌+◌, ◌<◌, ◌≡◌, refl, ap, sym, subst, ◌∙◌, Text, bytes_eq, nat_eq, bytes_beq_refl, none, some,
  false, List, [], ◌∷◌, ok, All, arith, u64_mod,
}
use gravity_kvstore.Dict
use gravity_kvstore.Dict.Laws.{lookup-insert, lookup-remove as dict-remove}
use gravity_kvstore.Types.{AccountState, Block, Transaction, TransactionReceipt}
use gravity_kvstore.Types.Deps.{
  Deps, HexLaws, KeccakLaws, BincodeLaws, SecpLaws, JsonLaws, VerifiedLaws,
}
use gravity_kvstore.Types.Convert.{account, sequence_number, from_verified}
use gravity_kvstore.State.{State, get_account, get_state_root}
use gravity_kvstore.Mempool.WellFormed.{IsWellFormed}
use gravity_kvstore.Mempool.Order.{present}
use gravity_kvstore.Crypto.{SignatureError, sign_transaction}
use gravity_kvstore.Storage.{Storage, IsStorage, HasHash}
use gravity_kvstore.Mempool.{add_raw_txn, best_txns}
use gravity_kvstore.Mempool.Handed.{Has, best_txns-Has}
use gravity_kvstore.Server.{TransactionError, get_value}
use gravity_kvstore.Server.Submit.{account_of}
use gravity_kvstore.Shell.SetGet.{address_of, set_of, nonce-sender_state, get_value-lookup}
use gravity_kvstore.Executor.Receipts.{execute_txns-HasHash}
use gravity_kvstore.Executor.Runs.{set_runs}
use gravity_kvstore.Executor.Set.{set_writes}
use gravity_kvstore.Executor.Node.{Node, context_of, requested, executed, committed}
use gravity_kvstore.Executor.{ExecuteError, sender_state, execute_next}
use gravity_kvstore.Executor.Block.{ExternalBlock, execute_txns}
use gravity_kvstore.Executor.Node.Single.{
  present-remove_txn, execute_block-single, verify-signed, with_address, requested-Holds, read_back,
  committed-single,
}

module _ (d : Deps) (hex : HexLaws d) (sha : KeccakLaws d) (bincode : BincodeLaws d)
    (secp : SecpLaws d) where
  module _ {S : Type 0} (storage : Storage S) (laws : IsStorage storage) where
    -- What is to be read after the commit, from the node after the execution.
    abbrev pub AfterCommit : Text → Text → d.SecretKey → Transaction → ℕ → ℕ → Node S → Type 0
    AfterCommit key new secret txn number start n₂ =
        let n₃ = committed d storage start number n₂ in
        (block : Block) × (block.transactions ≡ with_address d hex sha bincode secp txn secret ∷ [])
        × (storage.get_block number n₃.store ≡ ok (some block))
        × (storage.get_state_root number n₃.store ≡ ok (some (get_state_root n₃.state)))
        × (get_value (address_of d secret) key (context_of n₃) ≡ ok new)
        × (Dict.lookup number n₃.pending ≡ none)
        × (present (account_of d hex sha bincode (d.public_key_from_secret_key secret))
              txn.unsigned.nonce n₃.pool
            ≡ false)

    -- The same from the node that took the transaction in.
    abbrev pub IsCommitted :
        Text
        → Text
        → d.SecretKey
        → Transaction
        → ExternalBlock d
        → ℕ
        → d.VerifiedTxn
        → Node S
        → Type 0
    IsCommitted key new secret txn b start v n₁ =
        AfterCommit key new secret txn b.block_number start
          (executed d storage (record b { txns = v ∷ [] }) n₁)

    -- A block of the one transaction, from its execution to its commit.
    block-IsCommitted :
        (key new : Text) (secret : d.SecretKey) (txn : Transaction) (b : ExternalBlock d)
        (start : ℕ) (v : d.VerifiedTxn) (n : Node S) (r : TransactionReceipt) (s' : State)
        (account : AccountState)
        → b.block_number < u64_mod
        → IsWellFormed n.pool
        → from_verified d {E = ExecuteError} v ≡ ok (with_address d hex sha bincode secp txn secret)
        → execute_next d (with_address d hex sha bincode secp txn secret) n.state
          ≡ (ok (r ∷ []), s')
        → get_account (address_of d secret) s' ≡ some account
        → Dict.lookup key account.kv_store ≡ some new
        → IsCommitted key new secret txn b start v n
    unfolding execute_txns
    block-IsCommitted key new secret txn b start v n r s' account fits w back runs there written =
        let number = b.block_number in
        let t = with_address d hex sha bincode secp txn secret in
        let a = account_of d hex sha bincode (d.public_key_from_secret_key secret) in
        let (e, sealed, under, single, receipts, e_root) =
          execute_block-single d b t v n.state s' r n.pending back runs in
        let n₂ : Node S = record n { state = s'; pending = Dict.insert number e n.pending } in
        let executes : execute_txns d (t ∷ []) n.state ≡ (ok (r ∷ []), s') = ground arith in
        let waits : Dict.lookup number n₂.pending ≡ some e =
          ground (arith, lookup-insert number number e n.pending) in
        let hashes : All HasHash e.receipts =
          rw receipts (execute_txns-HasHash d sha bincode (t ∷ []) n.state s' executes) in
        let (block, root, pending, pool) =
          committed-single d hex sha bincode secp storage laws start number n₂ e txn secret waits
            under fits hashes single in
        subst (AfterCommit key new secret txn number start)
          (sym (ap (λ q. record n { state = q.1; pending = q.2 }) sealed))
          (
            e.block,
            single,
            block,
            root ∙ ap (λ q. ok (some q)) e_root,
            get_value-lookup key new (address_of d secret) _ account there written,
            ap (λ q. Dict.lookup number q) pending
                ∙ ground (arith, dict-remove number number n₂.pending),
            ap (present a txn.unsigned.nonce) pool
                ∙ present-remove_txn a txn.unsigned.nonce n.pool w,
          )

    -- With packages that keep their laws and a storage that meets its contract: a user signs a
    -- `SetKV` with the account's next nonce, which is not the last `u64`, and sends it to a node
    -- whose pool is well formed. If the pool hands out its transactions without a panic, this one
    -- is among them. If consensus then orders it, in a block of its own with a number in the range
    -- of `u64`, and commits the block: the block with this transaction and the state root are read
    -- from the store under its number, the server finds the new value under the key, and neither
    -- does the block wait any more nor is the transaction in the pool.
    pub set_reaches_store :
        (json : JsonLaws d) (verified : VerifiedLaws d) (key new signature : Text)
        (secret : d.SecretKey) (n : Node S) (b : ExternalBlock d) (start : ℕ)
        {vs : List d.VerifiedTxn}
        → let unsigned = set_of d key new secret n.state in
          let txn : Transaction = record { unsigned = unsigned; signature = signature } in
          let n₁ = requested d storage txn n in
          sign_transaction d {E = SignatureError} unsigned secret ≡ ok signature
          → IsWellFormed n.pool
          → unsigned.nonce + 1 < u64_mod
          → b.block_number < u64_mod
          → best_txns d {E = ExecuteError} none n₁.pool ≡ ok vs
          → (v : d.VerifiedTxn) × Has v vs × IsCommitted key new secret txn b start v n₁
    unfolding sequence_number
    set_reaches_store json verified key new signature secret n b start {vs} signed w fits number
          best =
        let s = n.state in
        let address = address_of d secret in
        let a = account_of d hex sha bincode (d.public_key_from_secret_key secret) in
        let unsigned = set_of d key new secret s in
        let txn : Transaction = record { unsigned = unsigned; signature = signature } in
        let t = with_address d hex sha bincode secp txn secret in
        let sig = verify-signed d hex sha bincode secp unsigned secret signature signed in
        let (sent, holds, kept) =
          requested-Holds d hex sha bincode secp storage txn secret n sig w fits in
        let pool = (add_raw_txn d {E = TransactionError} t n.pool).1 in
        let (v, into, has) =
          best_txns-Has d ExecuteError a t pool holds
            (subst (λ q. best_txns d {E = ExecuteError} none q.pool ≡ ok vs) sent best) in
        let back = read_back d hex sha bincode secp json verified txn secret v into in
        let (r, s', runs) =
          set_runs d bincode t address key new s sig refl (sym (nonce-sender_state address s))
            fits in
        let next : (sender_state address s).nonce + 1 < u64_mod =
          omega (arith, nonce-sender_state address s) in
        let (account, found, _, _, looked) =
          set_writes d t address key new s s' address key sig refl next runs in
        let there : get_account address s' ≡ some account =
          ground (arith, bytes_beq_refl address) in
        let written : Dict.lookup key account.kv_store ≡ some new =
          ground (arith, bytes_beq_refl key) in
        let done =
          block-IsCommitted key new secret txn b start v (record n { pool = pool }) r s' account
            number kept back runs there written in
        (v, has, subst (IsCommitted key new secret txn b start v) (sym sent) done)
