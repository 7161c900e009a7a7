-- ===== src/Crypto/Merkle.antt =====
-- `compute_merkle_root` of crypto.rs.
pub mod Ends
pub mod Twins
use gravity_kvstore.Prelude.{
  ℕ, zero, suc, ◌%◌, ◌==◌, if◌then◌else◌, ltb, Bytes, List, [], ◌∷◌, ◌++◌, Outcome, ok, unwrap,
  panic, ◌>>=◌, length, get_or, replicate, Option, none, some,
}
use gravity_kvstore.Types.{Transaction}
use gravity_kvstore.Types.Deps.{Deps}

-- `hashes.last().unwrap()`, of a list that is not empty.
abbrev pub last_or : Bytes → List Bytes → Bytes
last_or x [] = x
last_or x (y ∷ ys) = last_or y ys

-- `if hashes.len() % 2 != 0 { hashes.push(hashes.last().unwrap().clone()) }`
unfoldable pub pad : List Bytes → List Bytes
pad hashes = if length hashes % 2 == 0 then hashes else hashes ++ last_or [] hashes ∷ []

module _ (d : Deps) where
  -- One pass over `hashes.chunks(2)`; the list is even, so that no chunk has one element, at which
  -- `chunk[1]` would panic.
  unfoldable pub combine : {E : Type 0} → List Bytes → Outcome E (List Bytes)
  combine [] = ok []
  combine (a ∷ []) = panic
  combine (a ∷ b ∷ rest) = do new_hashes ← combine rest; ok (d.keccak (a ++ b) ∷ new_hashes)

  -- The `while` loop, with fuel; `none` means that the fuel ran out.
  unfoldable pub merkle_loop : {E : Type 0} → ℕ → List Bytes → Outcome E (Option Bytes)
  merkle_loop zero hashes = ok none
  merkle_loop (suc fuel) hashes =
      let again = combine (pad hashes) >>= merkle_loop fuel in
      if ltb 1 (length hashes) then again else ok (some (get_or hashes 0 []))

  unfoldable pub leaf_hashes : {E : Type 0} → List Transaction → Outcome E (List Bytes)
  leaf_hashes [] = ok []
  leaf_hashes (tx ∷ txs) = do
    encoded ← unwrap (d.bincode_transaction tx)
    hashes ← leaf_hashes txs
    ok (d.keccak encoded ∷ hashes)

  -- The fuel is the number of transactions, with which the loop ends.
  unfoldable pub compute_merkle_root : {E : Type 0} → List Transaction → Outcome E (Option Bytes)
  compute_merkle_root [] = ok (some (replicate 32 0))
  compute_merkle_root (tx ∷ txs) = do
    hashes ← leaf_hashes (tx ∷ txs)
    merkle_loop (length hashes) hashes
