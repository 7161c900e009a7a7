-- ===== src/Server/Submit.antt =====
-- What becomes of a signed transaction that is sent to `add_txn` of app/server.rs.
use gravity_kvstore.Prelude.{
  ◌+◌, ◌<◌, ◌≡◌, ap, sym, subst, Text, Bytes, ◌++◌, ok, arith, drop, replicate, u64_mod, ascii,
}
use gravity_kvstore.Types.{Transaction, UnsignedTransaction, TransactionWithAccount}
use gravity_kvstore.Types.Deps.{Deps, HexLaws, KeccakLaws, BincodeLaws, SecpLaws}
use gravity_kvstore.Types.Convert.{account, sequence_number}
use gravity_kvstore.Crypto.{SignatureError, sign_transaction, public_key_to_address}
use gravity_kvstore.Crypto.Signing.{
  verify-sign, convert_account-address, compute_transaction_hash-ok,
}
use gravity_kvstore.Mempool.{add_raw_txn, raw_txn_key}
use gravity_kvstore.Mempool.WellFormed.{IsWellFormed}
use gravity_kvstore.Mempool.Holds.{Holds, add_raw_txn-Holds}
use gravity_kvstore.Server.{TransactionError, Context, AddReply, add_txn}

module _ (d : Deps) (hex : HexLaws d) (sha : KeccakLaws d) (bincode : BincodeLaws d) where
  -- The account of a key: twelve zeros and its address.
  abbrev pub account_of : d.PublicKey → Bytes
  account_of key = replicate 12 0 ++ drop 12 (d.keccak (drop 1 (d.serialize_uncompressed key)))

  -- A transaction with the address of a key converts, and can be hashed.
  pub raw_txn_key-address :
      (E : Type 0) (key : d.PublicKey) (txn : Transaction)
      → raw_txn_key d {E = E} (record { txn = txn; address = public_key_to_address d key })
        ≡ ok (account_of key, d.keccak (bincode.encoded txn.unsigned))
  unfolding raw_txn_key account
  raw_txn_key-address E key txn = rw (
    convert_account-address d hex sha key,
    compute_transaction_hash-ok d bincode {E = E} txn.unsigned,
  )

  module _ (secp : SecpLaws d) {S : Type 0} where
    -- With packages that keep their laws, a transaction that is signed with a key, whose nonce is
    -- not the last `u64`, sent to a server whose pool is well formed, is accepted: the reply has
    -- its hash, the pool holds it under the account of the key and its nonce, and the state and
    -- the store are as before.
    pub add_txn-Holds :
        (tx : UnsignedTransaction) (key : d.SecretKey) (c : Context S)
        → IsWellFormed c.mempool
        → tx.nonce + 1 < u64_mod
        → let public_key = d.public_key_from_secret_key key in
          (signature : Text) × (sign_transaction d {E = SignatureError} tx key ≡ ok signature)
          × (let txn : Transaction = record { unsigned = tx; signature = signature } in
              let (reply, c') = add_txn d txn c in
              (reply
                ≡ ok (record {
                  status = ascii "success";
                  txn_hash = d.hex_encode (d.keccak (bincode.encoded tx));
                }))
              × Holds
                  (account_of public_key)
                  (record { txn = txn; address = public_key_to_address d public_key })
                  c'.mempool
              × (c'.state ≡ c.state)
              × (c'.store ≡ c.store))
    unfolding add_txn sequence_number
    add_txn-Holds tx key c w fits =
        let (signature, signed, verified) = verify-sign d hex sha bincode secp tx key in
        let public_key = d.public_key_from_secret_key key in
        let txn : Transaction = record { unsigned = tx; signature = signature } in
        let t : TransactionWithAccount = record {
          txn = txn;
          address = public_key_to_address d public_key;
        } in
        let (sent, holds) =
          add_raw_txn-Holds d TransactionError t c.mempool (account_of public_key)
            (d.keccak (bincode.encoded tx)) w fits
            (raw_txn_key-address TransactionError public_key txn) in
        let pool = (add_raw_txn d {E = TransactionError} t c.mempool).1 in
        let reply : AddReply = record {
          status = ascii "success";
          txn_hash = d.hex_encode (d.keccak (bincode.encoded tx));
        } in
        let runs : add_txn d txn c ≡ (ok reply, record c { mempool = pool }) = ground arith in
        (
          signature,
          signed,
          (
            ap (λ q. q.0) runs,
            subst (λ q. Holds (account_of public_key) t q.1.mempool) (sym runs) holds,
            ap (λ q. q.1.state) runs,
            ap (λ q. q.1.store) runs,
          ),
        )
