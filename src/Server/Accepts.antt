-- ===== src/Server/Accepts.antt =====
-- What comes of the requests to the routes of app/server.rs.
use gravity_kvstore.Prelude.{
  ◌+◌, ◌<◌, ◌≡◌, refl, sym, ap, ◌∙◌, subst, ◌⊎◌, inl, inr, Bool, true, Bool-cases, Text, Bytes,
  bytes_eq, bytes_beq_iff, some, Option-cases, ok, Outcome-cases, continue-keeps, ok-inj, arith,
  u64_mod, ascii,
}
use gravity_kvstore.Types.{Transaction, UnsignedTransaction}
use gravity_kvstore.Types.Deps.{Deps, HexLaws, KeccakLaws, BincodeLaws, SecpLaws}
use gravity_kvstore.Crypto.{
  SignatureError, sign_transaction, verify_signature, public_key_to_address,
}
use gravity_kvstore.Storage.{Storage}
use gravity_kvstore.Mempool.{add_raw_txn}
use gravity_kvstore.Mempool.WellFormed.{IsWellFormed}
use gravity_kvstore.Mempool.Holds.{Holds}
use gravity_kvstore.Server.{Context, TransactionError, add_txn}
use gravity_kvstore.Server.Submit.{account_of, add_txn-Holds}
use gravity_kvstore.Server.App.{
  Endpoint, post_add_txn, post_get_receipt, post_get_value, Web, added, route, reply_of, handle,
  serve,
}

module _ (d : Deps) {S Value : Type 0} (storage : Storage S) (web : Web Value) where
  serve-add_txn :
      (body : Bytes) (txn : Transaction) (c : Context S)
      → web.json_transaction body ≡ some txn
      → serve d storage web true (ascii "/add_txn") body c
        ≡ (reply_of added (add_txn d txn c).0, (add_txn d txn c).1)
  unfolding serve handle route
  serve-add_txn body txn c reads = rw (reads, handle) refl

  route-eq-add_txn : (path : Text) → route path ≡ some post_add_txn → path ≡ ascii "/add_txn"
  unfolding route
  route-eq-add_txn path h = ground (arith, bytes_beq_iff path (ascii "/add_txn"))

  -- The body reads as a transaction whose signature verifies, and the context after is that before
  -- with this transaction added to the pool under its signer's address.
  abbrev pub IsAddition : Bytes → Context S → Context S → Type 0
  IsAddition body c c' =
      (txn : Transaction) × (sender : Text) × (web.json_transaction body ≡ some txn)
      × (verify_signature d txn ≡ ok sender)
      × (c' ≡ record c {
        mempool =
            (add_raw_txn d {E = TransactionError} (record { txn = txn; address = sender })
              c.mempool).1;
      })

  add_txn-eq-sender :
      (txn : Transaction) (sender : Text) (c : Context S)
      → verify_signature d txn ≡ ok sender
      → (add_txn d txn c).1 ≡ record c {
        mempool =
            (add_raw_txn d {E = TransactionError}
              (record { txn = txn; address = sender })
              c.mempool).1;
      }
  unfolding add_txn
  add_txn-eq-sender txn sender c v =
      let (sent, pool) =
        add_raw_txn d {E = TransactionError} (record { txn = txn; address = sender }) c.mempool in
      let c' = record c { mempool = pool } in
      rw v (continue-keeps (λ q. q ≡ c') (sent, c') _ refl (λ _ _ h. h))

  add_txn-changes :
      (body : Bytes) (txn : Transaction) (c : Context S)
      → web.json_transaction body ≡ some txn
      → ((add_txn d txn c).1 ≡ c) ⊎ IsAddition body c (add_txn d txn c).1
  unfolding add_txn
  add_txn-changes body txn c reads = elim (Outcome-cases (verify_signature d txn)) [
    | inl (sender, v) ↦ inr (txn, sender, reads, v, add_txn-eq-sender txn sender c v)
    | inr (inl (e, v)) ↦ inl (rw (v, add_txn) refl)
    | inr (inr v) ↦ inl (rw (v, add_txn) refl)
  ]

  handle-changes :
      (endpoint : Endpoint) (body : Bytes) (c : Context S)
      → ((handle d storage web endpoint body c).1 ≡ c)
        ⊎ ((endpoint ≡ post_add_txn) × IsAddition body c (handle d storage web endpoint body c).1)
  unfolding handle
  handle-changes post_add_txn body c = elim (Option-cases (web.json_transaction body)) [
    | inl e ↦ inl (rw (e, handle) refl)
    | inr (txn, e) ↦
        let runs : (handle d storage web post_add_txn body c).1 ≡ (add_txn d txn c).1 =
          rw (e, handle) refl in
        elim (add_txn-changes body txn c e) [
          | inl kept ↦ inl (runs ∙ kept)
          | inr adds ↦ inr (refl, subst (IsAddition body c) (sym runs) adds)
        ]
  ]
  handle-changes post_get_receipt body c = elim (Option-cases (web.json_hash body)) [
    | inl e ↦ inl (rw (e, handle) refl)
    | inr (hash, e) ↦ inl (rw (e, handle) refl)
  ]
  handle-changes post_get_value body c = elim (Option-cases (web.json_pair body)) [
    | inl e ↦ inl (rw (e, handle) refl)
    | inr (pair, e) ↦ inl (rw (e, handle) refl)
  ]

  -- A request with any method, path and body, whether it is answered or panics, leaves the state,
  -- the store and the pool as they are; or else it is a POST to /add_txn, its body reads as a
  -- transaction whose signature verifies, and what it changes is the pool, to which this
  -- transaction has been added under the address of its signer.
  pub serve_changes :
      (is_post : Bool) (path : Text) (body : Bytes) (c : Context S)
      → let c' = (serve d storage web is_post path body c).1 in
        (c' ≡ c) ⊎ ((is_post ≡ true) × (path ≡ ascii "/add_txn") × IsAddition body c c')
  unfolding serve
  serve_changes is_post path body c = elim (Option-cases (route path)) [
    | inl e ↦ inl (rw (e, serve) refl)
    | inr (endpoint, e) ↦ elim (Bool-cases is_post) [
      | inl post ↦ elim (handle-changes endpoint body c) [
        | inl kept ↦ inl (rw (e, post, serve) kept)
        | inr (add, adds) ↦
            inr (post, route-eq-add_txn path (e ∙ ap some add), rw (e, post, serve) adds)
      ]
      | inr other ↦ inl (rw (e, other, serve) refl)
    ]
  ]

  -- With packages that keep their laws, a transaction that is signed with a key, whose nonce is not
  -- the last `u64`, and a body that reads as it, posted to /add_txn of a server whose pool is well
  -- formed: the reply is a success with the transaction's hash, the pool holds it under the account
  -- of the key and its nonce, and the state and the store are as before.
  pub serve-Holds :
      (hex : HexLaws d) (sha : KeccakLaws d) (bincode : BincodeLaws d) (secp : SecpLaws d)
      (tx : UnsignedTransaction) (signature : Text) (key : d.SecretKey) (body : Bytes)
      (c : Context S)
      → sign_transaction d {E = SignatureError} tx key ≡ ok signature
      → web.json_transaction body ≡ some (record { unsigned = tx; signature = signature })
      → IsWellFormed c.mempool
      → tx.nonce + 1 < u64_mod
      → let public_key = d.public_key_from_secret_key key in
        let (reply, c') = serve d storage web true (ascii "/add_txn") body c in
        (reply
          ≡ ok (
              added (record {
                status = ascii "success";
                txn_hash = d.hex_encode (d.keccak (bincode.encoded tx));
              })))
        × Holds
            (account_of d hex sha bincode public_key)
            (record {
              txn = record { unsigned = tx; signature = signature };
              address = public_key_to_address d public_key;
            })
            c'.mempool
        × (c'.state ≡ c.state)
        × (c'.store ≡ c.store)
  unfolding reply_of
  serve-Holds hex sha bincode secp tx signature key body c signs reads w fits =
      let (signature', signs', rest) = add_txn-Holds d hex sha bincode secp tx key c w fits in
      let same : signature' ≡ signature = ok-inj (sym signs' ∙ signs) in
      let (reply, holds, state, store) = rw same at rest in
      rw (serve-add_txn body (record { unsigned = tx; signature = signature }) c reads)
        (rw reply refl, holds, state, store)
