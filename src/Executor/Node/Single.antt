-- ===== src/Executor/Node/Single.antt =====
-- One transaction on its way through app/server.rs, txpool/mempool.rs and executor/executor.rs,
-- step by step.
use gravity_kvstore.Prelude.{
  ℕ, ◌+◌, ◌<◌, ◌≡◌, refl, ap, sym, subst, ◌∙◌, Text, Bytes, bytes_eq, nat_eq, bytes_beq_refl, some,
  false, [], ◌∷◌, ok, All, arith, u64_mod, Option-cases, inl, inr, ok-inj,
}
use gravity_kvstore.Dict
use gravity_kvstore.BTree
use gravity_kvstore.BTree.{BTree}
use gravity_kvstore.BTree.Laws.{lookup-remove}
use gravity_kvstore.Dict.Laws.{lookup-insert, AllValues-lookup}
use gravity_kvstore.Types.{Transaction, TransactionReceipt, TransactionWithAccount}
use gravity_kvstore.Types.Deps.{
  Deps, HexLaws, KeccakLaws, BincodeLaws, SecpLaws, JsonLaws, VerifiedLaws,
}
use gravity_kvstore.Types.Convert.{sequence_number, from_verified, into_verified}
use gravity_kvstore.State.{State, get_state_root}
use gravity_kvstore.Mempool.{Pool, remove_txn}
use gravity_kvstore.Mempool.WellFormed.{IsTree, IsWellFormed}
use gravity_kvstore.Mempool.Order.{present}
use gravity_kvstore.Types.{UnsignedTransaction}
use gravity_kvstore.Types.RoundTrip.{from_verified-into_verified}
use gravity_kvstore.Crypto.{SignatureError, sign_transaction, verify_signature}
use gravity_kvstore.Crypto.Signing.{verify-sign}
use gravity_kvstore.Storage.{Storage, StorageError, IsStorage, HasHash}
use gravity_kvstore.Mempool.{add_raw_txn}
use gravity_kvstore.Mempool.WellFormed.{add_raw_txn-IsWellFormed}
use gravity_kvstore.Mempool.Holds.{Holds, add_raw_txn-Holds}
use gravity_kvstore.Server.{TransactionError, add_txn}
use gravity_kvstore.Server.Submit.{account_of, raw_txn_key-address}
use gravity_kvstore.Shell.SetGet.{address_of}
use gravity_kvstore.Executor.Tasks.{CommitTask, persist_block}
use gravity_kvstore.Executor.Commit.{HasAccount, without, persist_block-stores}
use gravity_kvstore.Mempool.Verified.{account-raw_txn_key}
use gravity_kvstore.Executor.Node.{Node, requested, committed}
use gravity_kvstore.Executor.{ExecuteError, execute_next}
use gravity_kvstore.Executor.Block.{
  ExternalBlock, Pending, PendingBlock, block_txns, execute_txns, seal_block, execute_block,
}

-- A pool without an entry has none under its number.
pub present-remove_txn :
    (a : Bytes) (n : ℕ) (pool : Pool)
    → IsWellFormed pool
    → present a n (remove_txn a n pool) ≡ false
unfolding remove_txn
present-remove_txn a n pool w = elim (Option-cases (Dict.lookup a pool.mempool)) [
  | inl e ↦ ground arith
  | inr (txns, e) ↦
      let tree = AllValues-lookup IsTree a txns pool.mempool w e in
      ground (
        arith,
        bytes_beq_refl a,
        lookup-insert a a (BTree.remove n txns) pool.mempool,
        lookup-remove 0 n n txns tree.0,
      )
]

module _ (d : Deps) where
  -- A block of one transaction that is executed.
  pub execute_block-single :
      (b : ExternalBlock d) (t : TransactionWithAccount) (v : d.VerifiedTxn) (s s' : State)
      (r : TransactionReceipt) (p : Pending)
      → from_verified d {E = ExecuteError} v ≡ ok t
      → execute_next d t s ≡ (ok (r ∷ []), s')
      → (e : PendingBlock) × (execute_block d (record b { txns = v ∷ [] }) s p
          ≡ (ok (get_state_root s').bytes, s', Dict.insert b.block_number e p))
        × (e.block.header.number ≡ b.block_number)
        × (e.block.transactions ≡ t ∷ [])
        × (e.receipts ≡ r ∷ [])
        × (e.root ≡ get_state_root s')
  unfolding execute_block block_txns execute_txns seal_block
  execute_block-single b t v s s' r p back runs = (
    record {
      root = record { bytes = (get_state_root s').bytes };
      block = record {
        header = record {
          number = b.block_number;
          parent_state_root = (get_state_root s).bytes;
          state_root = (get_state_root s').bytes;
          usecs = b.usecs;
        };
        transactions = t ∷ [];
      };
      receipts = r ∷ [];
    },
    ground arith,
    refl,
    refl,
    refl,
    refl,
  )

module _ (d : Deps) (hex : HexLaws d) (sha : KeccakLaws d) (bincode : BincodeLaws d)
    (secp : SecpLaws d) where
  pub verify-signed :
      (tx : UnsignedTransaction) (key : d.SecretKey) (signature : Text)
      → sign_transaction d {E = SignatureError} tx key ≡ ok signature
      → verify_signature d (record { unsigned = tx; signature = signature }) ≡ ok (address_of d key)
  verify-signed tx key signature h =
      let (signature', signed, verified) = verify-sign d hex sha bincode secp tx key in
      subst
        (λ q. verify_signature d (record { unsigned = tx; signature = q }) ≡ ok (address_of d key))
        (ok-inj (sym signed ∙ h)) verified

  -- The transaction with the address that the server recovers.
  abbrev pub with_address : Transaction → d.SecretKey → TransactionWithAccount
  with_address txn key = record { txn = txn; address = address_of d key }

  module _ {S : Type 0} (storage : Storage S) where
    -- The server takes the transaction in: only the pool changes, and holds it.
    pub requested-Holds :
        (txn : Transaction) (key : d.SecretKey) (n : Node S)
        → verify_signature d txn ≡ ok (address_of d key)
        → IsWellFormed n.pool
        → txn.unsigned.nonce + 1 < u64_mod
        → let t = with_address txn key in
          let pool = (add_raw_txn d {E = TransactionError} t n.pool).1 in
          (requested d storage txn n ≡ record n { pool = pool })
          × Holds (account_of d hex sha bincode (d.public_key_from_secret_key key)) t pool
          × IsWellFormed pool
    unfolding add_txn sequence_number
    requested-Holds txn key n verified w fits =
        let t = with_address txn key in
        let public_key = d.public_key_from_secret_key key in
        let (sent, holds) =
          add_raw_txn-Holds d TransactionError t n.pool (account_of d hex sha bincode public_key)
            (d.keccak (bincode.encoded txn.unsigned)) w fits
            (raw_txn_key-address d hex sha bincode TransactionError public_key txn) in
        (ground arith, holds, add_raw_txn-IsWellFormed d TransactionError t n.pool fits w)

  module _ (json : JsonLaws d) (verified : VerifiedLaws d) where
    -- What is handed out for a transaction is read back as that transaction.
    pub read_back :
        (txn : Transaction) (key : d.SecretKey) (v : d.VerifiedTxn)
        → into_verified d {E = ExecuteError} (with_address txn key) ≡ ok v
        → from_verified d {E = ExecuteError} v ≡ ok (with_address txn key)
    read_back txn key v into =
        let public_key = d.public_key_from_secret_key key in
        let (v', into', _, _, back) =
          from_verified-into_verified d json verified ExecuteError (with_address txn key)
            (account_of d hex sha bincode public_key)
            (account-raw_txn_key d ExecuteError (with_address txn key)
              (account_of d hex sha bincode public_key) (d.keccak (bincode.encoded txn.unsigned))
              (raw_txn_key-address d hex sha bincode ExecuteError public_key txn)) in
        subst (λ q. from_verified d {E = ExecuteError} q ≡ ok (with_address txn key))
          (ok-inj (sym into' ∙ into)) back

  module _ {S : Type 0} (storage : Storage S) (laws : IsStorage storage) where
    -- A block of one transaction that waits is committed.
    pub committed-single :
        (start number : ℕ) (n : Node S) (e : PendingBlock) (txn : Transaction) (key : d.SecretKey)
        → Dict.lookup number n.pending ≡ some e
        → e.block.header.number ≡ number
        → number < u64_mod
        → All HasHash e.receipts
        → e.block.transactions ≡ with_address txn key ∷ []
        → let n' = committed d storage start number n in
          (storage.get_block number n'.store ≡ ok (some e.block))
          × (storage.get_state_root number n'.store ≡ ok (some e.root))
          × (n'.pending ≡ Dict.remove number n.pending)
          × (n'.pool
              ≡ remove_txn
                  (account_of d hex sha bincode (d.public_key_from_secret_key key))
                  txn.unsigned.nonce
                  n.pool)
    unfolding sequence_number
    committed-single start number n e txn key waits under fits hashes single =
        let a = account_of d hex sha bincode (d.public_key_from_secret_key key) in
        let task : CommitTask S = record {
          start_num = start;
          pending = n.pending;
          store = n.store;
          pool = n.pool;
        } in
        let has : HasAccount d (with_address txn key) = (
          a,
          account-raw_txn_key d StorageError (with_address txn key) a
              (d.keccak (bincode.encoded txn.unsigned))
              (raw_txn_key-address d hex sha bincode StorageError (d.public_key_from_secret_key key)
                txn),
        ) in
        let have : (h : All (HasAccount d) e.block.transactions) × (without d e.block.transactions h
                n.pool
              ≡ remove_txn a txn.unsigned.nonce n.pool) =
          rw single ((has, tt), refl) in
        let (task', done, block, root, pending, pool) =
          persist_block-stores d storage laws number number task e waits under fits fits hashes
            have.0 in
        let same : (persist_block d storage number task).1 ≡ task' = ap (λ q. q.1) done in
        (
          subst (λ q. storage.get_block number q.store ≡ ok (some e.block)) (sym same)
              (ground arith),
          subst (λ q. storage.get_state_root number q.store ≡ ok (some e.root)) (sym same)
              (ground arith),
          ap (λ q. q.pending) same ∙ pending,
          ap (λ q. q.pool) same ∙ pool ∙ have.1,
        )
