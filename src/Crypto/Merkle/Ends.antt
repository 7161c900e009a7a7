-- ===== src/Crypto/Merkle/Ends.antt =====
-- The loop of `compute_merkle_root` of crypto.rs ends, with a digest.
use gravity_kvstore.Prelude.{
  ℕ, zero, suc, ◌+◌, ◌*◌, ◌%◌, ◌≤◌, ◌<◌, ◌≡◌, refl, sym, subst, ◌==◌, Bytes, List, [], ◌∷◌, ◌++◌,
  some, ok, arith, length, length-append, replicate, All, All-append, Bool-cases, inl, inr,
}
use gravity_kvstore.Types.{Transaction}
use gravity_kvstore.Types.Deps.{Deps, KeccakLaws, BincodeLaws}
use gravity_kvstore.Crypto.Merkle.{
  last_or, pad, combine, merkle_loop, leaf_hashes, compute_merkle_root,
}

abbrev pub IsDigest : Bytes → Type 0
IsDigest b = length b ≡ 32

last_or-IsDigest :
    (x : Bytes) (xs : List Bytes) → IsDigest x → All IsDigest xs → IsDigest (last_or x xs)
last_or-IsDigest x [] h hs = h
last_or-IsDigest x (y ∷ ys) h hs = last_or-IsDigest y ys hs.0 hs.1

-- An even list of digests, at most one longer.
abbrev IsPadded : ℕ → List Bytes → Type 0
IsPadded n hs = (length hs % 2 ≡ 0) × (n ≤ length hs) × (length hs ≤ n + n % 2) × All IsDigest hs

pad-IsPadded :
    (x : Bytes) (xs : List Bytes)
    → All IsDigest (x ∷ xs)
    → IsPadded (length (x ∷ xs)) (pad (x ∷ xs))
unfolding pad
pad-IsPadded x xs h = elim (Bool-cases (length (x ∷ xs) % 2 == 0)) [
  | inl even ↦
      let same : pad (x ∷ xs) ≡ x ∷ xs = rw (even, pad) refl in
      subst (IsPadded (length (x ∷ xs))) (sym same) (ground arith, omega arith, omega arith, h)
  | inr odd ↦
      let last = last_or x xs in
      let same : pad (x ∷ xs) ≡ (x ∷ xs) ++ last ∷ [] = rw (odd, pad) refl in
      let len = length-append (x ∷ xs) (last ∷ []) in
      let odd' : length (x ∷ xs) % 2 ≡ 1 = ground arith in
      subst (IsPadded (length (x ∷ xs))) (sym same) (
        omega arith,
        omega arith,
        omega arith,
        All-append IsDigest (x ∷ xs) (last ∷ []) h (last_or-IsDigest x xs h.0 h.1, tt),
      )
]

module _ (d : Deps) (sha : KeccakLaws d) where
  -- A pass over an even list does not panic, and leaves half as many digests.
  pub combine-ok :
      (E : Type 0) (hs : List Bytes)
      → length hs % 2 ≡ 0
      → All IsDigest hs
      → (new : List Bytes) × (combine d {E = E} hs ≡ ok new)
        × (length new * 2 ≡ length hs)
        × All IsDigest new
  unfolding combine
  combine-ok E [] even h = ([], refl, refl, tt)
  combine-ok E (a ∷ []) even h = absurd (omega arith)
  combine-ok E (a ∷ b ∷ rest) even h =
      let (new, e, half, digests) = combine-ok E rest (omega arith) h.1.1 in
      (d.keccak (a ++ b) ∷ new, rw e refl, omega arith, (sha.length-keccak (a ++ b), digests))

  -- With as much fuel as there are digests the loop ends, and leaves one.
  pub merkle_loop-ends :
      (E : Type 0) (fuel : ℕ) (hs : List Bytes)
      → All IsDigest hs
      → 0 < length hs
      → length hs ≤ fuel
      → (root : Bytes) × (merkle_loop d {E = E} fuel hs ≡ ok (some root)) × IsDigest root
  unfolding merkle_loop
  merkle_loop-ends E fuel [] h some_left enough = absurd (omega arith)
  merkle_loop-ends E zero (x ∷ xs) h some_left enough = absurd (omega arith)
  merkle_loop-ends E (suc fuel) (x ∷ []) h some_left enough = (x, refl, h.0)
  merkle_loop-ends E (suc fuel) (x ∷ y ∷ ys) h some_left enough =
      let (even, more, few, digests) = pad-IsPadded x (y ∷ ys) h in
      let (new, e, half, digests') = combine-ok E (pad (x ∷ y ∷ ys)) even digests in
      let (root, run, digest) = merkle_loop-ends E fuel new digests' (omega arith) (omega arith) in
      (root, ground arith, digest)

  module _ (bincode : BincodeLaws d) where
    pub leaf_hashes-ok :
        (E : Type 0) (txs : List Transaction)
        → (hs : List Bytes) × (leaf_hashes d {E = E} txs ≡ ok hs)
          × (length hs ≡ length txs)
          × All IsDigest hs
    unfolding leaf_hashes
    leaf_hashes-ok E [] = ([], refl, refl, tt)
    leaf_hashes-ok E (tx ∷ txs) =
        let (hs, e, len, digests) = leaf_hashes-ok E txs in
        (
          d.keccak (bincode.encoded_transaction tx) ∷ hs,
          rw (bincode.bincode_transaction-ok tx, e) refl,
          omega arith,
          (sha.length-keccak (bincode.encoded_transaction tx), digests),
        )

    -- With packages that keep their laws, the Merkle root is computed for every list of
    -- transactions: the loop ends within its fuel, no index is out of range, and the root has 32
    -- bytes.
    pub compute_merkle_root-ends :
        (E : Type 0) (txs : List Transaction)
        → (root : Bytes) × (compute_merkle_root d {E = E} txs ≡ ok (some root)) × (length root ≡ 32)
    unfolding compute_merkle_root
    compute_merkle_root-ends E [] = (replicate 32 0, refl, refl)
    compute_merkle_root-ends E (tx ∷ txs) =
        let (hs, e, len, digests) = leaf_hashes-ok E (tx ∷ txs) in
        let (root, run, digest) =
          merkle_loop-ends E (length hs) hs digests (omega arith) (omega arith) in
        (root, rw e run, digest)
