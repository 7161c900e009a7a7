-- ===== src/Types/RoundTrip.antt =====
-- `into_verified` and `From<VerifiedTxn>` of txpool/types.rs.
use gravity_kvstore.Prelude.{◌≡◌, Bytes, ok}
use gravity_kvstore.Types.{TransactionWithAccount}
use gravity_kvstore.Types.Deps.{Deps, JsonLaws, VerifiedLaws}
use gravity_kvstore.Types.Convert.{account, to_bytes, from_verified, into_verified, sequence_number}

module _ (d : Deps) (json : JsonLaws d) (verified : VerifiedLaws d) (E : Type 0) where
  -- With packages that keep their laws, a transaction whose address converts becomes a verified
  -- one with that sender and its own nonce, from which it is read back unchanged.
  pub from_verified-into_verified :
      (t : TransactionWithAccount) (sender : Bytes)
      → account d {E = E} t ≡ ok sender
      → (v : d.VerifiedTxn) × (into_verified d {E = E} t ≡ ok v)
        × (d.verified_sender v ≡ sender)
        × (d.verified_seq_number v ≡ sequence_number t)
        × (from_verified d {E = E} v ≡ ok t)
  unfolding into_verified to_bytes from_verified sequence_number
  from_verified-into_verified t sender a =
      let b = json.written t in
      let h = d.hash_to_fixed_array b in
      let n = t.txn.unsigned.nonce in
      (
        d.verified_new b sender n 0 h,
        rw (json.to_vec-ok t, a),
        verified.sender-new b sender n 0 h,
        verified.seq_number-new b sender n 0 h,
        rw (verified.bytes-new b sender n 0 h, json.from_slice-written t),
      )
