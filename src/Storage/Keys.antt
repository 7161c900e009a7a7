-- ===== src/Storage/Keys.antt =====
-- The keys of `SledStorage` in state/storage.rs: `format!` of a prefix and a number or an id.
use gravity_kvstore.Prelude.{
  ℕ, zero, suc, ◌+◌, ◌/◌, ◌%◌, ltb, if◌then◌else◌, Text, Bytes, [], ◌∷◌, ◌++◌, ascii,
}
use gravity_kvstore.Types.{AccountId}

-- The decimal digits that `{}` prints, with fuel for their number.
unfoldable pub digits : ℕ → ℕ → Text
digits zero n = []
digits (suc fuel) n =
    let front = digits fuel (n / 10) in
    if ltb n 10 then (48 + n) ∷ [] else front ++ (48 + n % 10) ∷ []

-- A `u64` has at most 20 digits.
unfoldable pub decimal : ℕ → Text
unfolding digits
decimal n = digits 20 n

unfoldable pub block_key : ℕ → Bytes
unfolding decimal
block_key number = ascii "block:" ++ decimal number

unfoldable pub state_root_key : ℕ → Bytes
unfolding decimal
state_root_key number = ascii "state_root:" ++ decimal number

unfoldable pub account_key : AccountId → Bytes
account_key account_id = ascii "account:" ++ account_id.text
