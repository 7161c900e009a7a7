-- ===== src/Crypto/Merkle/Twins.antt =====
-- Two lists of transactions with one root, for `compute_merkle_root` of crypto.rs.
use gravity_kvstore.Prelude.{
  ℕ, zero, suc, ◌%◌, ◌≡◌, refl, sym, ◌∙◌, ◌==◌, Bytes, List, [], ◌∷◌, ◌++◌, some, ok, arith, length,
  length-append, true, false, ◌>>=◌, >>=-eq-ok, append_assoc,
}
use gravity_kvstore.Types.{Transaction}
use gravity_kvstore.Types.Deps.{Deps, KeccakLaws, BincodeLaws}
use gravity_kvstore.Crypto.Merkle.{
  last_or, pad, combine, merkle_loop, leaf_hashes, compute_merkle_root,
}
use gravity_kvstore.Crypto.Merkle.Ends.{compute_merkle_root-ends}

last_or-append : (y : Bytes) (xs : List Bytes) (x : Bytes) → last_or y (xs ++ x ∷ []) ≡ x
last_or-append y [] x = refl
last_or-append y (z ∷ zs) x = last_or-append z zs x

-- An odd list is padded with its last element, and an even list stays.
pad-odd : (hs : List Bytes) (x : Bytes) → length hs % 2 ≡ 0 → pad (hs ++ x ∷ []) ≡ hs ++ x ∷ x ∷ []
unfolding pad
pad-odd hs x even =
    let odd : (length (hs ++ x ∷ []) % 2 == 0) ≡ false =
      ground (arith, length-append hs (x ∷ [])) in
    rw (odd, pad, last_or-append [] hs x) (append_assoc hs (x ∷ []) (x ∷ []))

pad-twins :
    (hs : List Bytes) (x : Bytes) → length hs % 2 ≡ 0 → pad (hs ++ x ∷ x ∷ []) ≡ hs ++ x ∷ x ∷ []
unfolding pad
pad-twins hs x even =
    let even' : (length (hs ++ x ∷ x ∷ []) % 2 == 0) ≡ true =
      ground (arith, length-append hs (x ∷ x ∷ [])) in
    rw (even', pad) refl

module _ (d : Deps) (E : Type 0) where
  merkle_loop-more :
      (fuel : ℕ) (hs : List Bytes) {root : Bytes}
      → merkle_loop d {E = E} fuel hs ≡ ok (some root)
      → merkle_loop d {E = E} (suc fuel) hs ≡ ok (some root)
  unfolding merkle_loop
  merkle_loop-more zero hs h = absurd (ground arith)
  merkle_loop-more (suc fuel) [] h = h
  merkle_loop-more (suc fuel) (x ∷ []) h = h
  merkle_loop-more (suc fuel) (x ∷ y ∷ ys) {root} h =
      let again : (combine d {E = E} (pad (x ∷ y ∷ ys)) >>= merkle_loop d fuel) ≡ ok (some root) =
        ground arith in
      let (new, e, run) = >>=-eq-ok (combine d (pad (x ∷ y ∷ ys))) (merkle_loop d fuel) again in
      let more = merkle_loop-more fuel new run in ground arith

  merkle_loop-twins :
      (fuel : ℕ) (y : Bytes) (hs : List Bytes) (x : Bytes)
      → length (y ∷ hs) % 2 ≡ 0
      → merkle_loop d {E = E} (suc fuel) ((y ∷ hs) ++ x ∷ x ∷ [])
        ≡ merkle_loop d {E = E} (suc fuel) ((y ∷ hs) ++ x ∷ [])
  unfolding merkle_loop
  merkle_loop-twins fuel y hs x even = ground (
    arith,
    pad-odd (y ∷ hs) x even,
    pad-twins (y ∷ hs) x even,
    length-append hs (x ∷ []),
    length-append hs (x ∷ x ∷ []),
  )

module _ (d : Deps) (sha : KeccakLaws d) (bincode : BincodeLaws d) (E : Type 0) where
  abbrev leaves : List Transaction → List Bytes
  leaves [] = []
  leaves (tx ∷ txs) = d.keccak (bincode.encoded_transaction tx) ∷ leaves txs

  leaves-append : (xs ys : List Transaction) → leaves (xs ++ ys) ≡ leaves xs ++ leaves ys
  leaves-append [] ys = refl
  leaves-append (x ∷ xs) ys = rw (leaves-append xs ys) refl

  length-leaves : (xs : List Transaction) → length (leaves xs) ≡ length xs
  length-leaves [] = refl
  length-leaves (x ∷ xs) = rw (length-leaves xs) refl

  leaf_hashes-leaves : (txs : List Transaction) → leaf_hashes d {E = E} txs ≡ ok (leaves txs)
  unfolding leaf_hashes
  leaf_hashes-leaves [] = refl
  leaf_hashes-leaves (tx ∷ txs) =
      rw (bincode.bincode_transaction-ok tx, leaf_hashes-leaves txs) refl

  root-loop :
      (tx : Transaction) (txs : List Transaction)
      → compute_merkle_root d {E = E} (tx ∷ txs)
        ≡ merkle_loop d {E = E} (length (tx ∷ txs)) (leaves (tx ∷ txs))
  unfolding compute_merkle_root
  root-loop tx txs = ground (arith, leaf_hashes-leaves (tx ∷ txs), length-leaves (tx ∷ txs))

  -- With packages that keep their laws, a list of an odd number of transactions, three at least,
  -- has the root of the list in which its last transaction comes once more.
  pub compute_merkle_root-twins :
      (tx : Transaction) (txs : List Transaction) (last : Transaction)
      → length (tx ∷ txs) % 2 ≡ 0
      → compute_merkle_root d {E = E} ((tx ∷ txs) ++ last ∷ last ∷ [])
        ≡ compute_merkle_root d {E = E} ((tx ∷ txs) ++ last ∷ [])
  compute_merkle_root-twins tx txs last even =
      let x = d.keccak (bincode.encoded_transaction last) in
      let fuel = length (txs ++ last ∷ []) in
      let (root, ends, _) = compute_merkle_root-ends d sha bincode E ((tx ∷ txs) ++ last ∷ []) in
      let one = root-loop tx (txs ++ last ∷ []) in
      let two = root-loop tx (txs ++ last ∷ last ∷ []) in
      let twins =
        merkle_loop-twins d E fuel (d.keccak (bincode.encoded_transaction tx)) (leaves txs) x
          (omega (arith, length-leaves txs)) in
      let len : length (txs ++ last ∷ last ∷ []) ≡ suc fuel =
        omega (arith, length-append txs (last ∷ []), length-append txs (last ∷ last ∷ [])) in
      let small : merkle_loop d {E = E} (suc fuel) (leaves (tx ∷ txs) ++ x ∷ []) ≡ ok (some root) =
        rw (sym (leaves-append txs (last ∷ []))) (sym one ∙ ends) in
      let more =
        merkle_loop-more d E (suc fuel) (leaves (tx ∷ txs) ++ x ∷ x ∷ []) (twins ∙ small) in
      two ∙ rw (len, leaves-append txs (last ∷ last ∷ [])) more ∙ sym ends
