-- ===== src/Storage/Distinct.antt =====
-- The keys of `SledStorage` in state/storage.rs never meet: they determine the number, and the
-- three kinds and the 32 bytes of a transaction hash are apart.
use gravity_kvstore.Prelude.{
  ℕ, zero, suc, ◌+◌, ◌-◌, ◌*◌, ◌/◌, ◌%◌, ◌≤◌, ◌<◌, ◌≡◌, ◌≢◌, refl, sym, ap, ◌∙◌, ◌⊎◌, inl, inr,
  Text, Bytes, [], ◌∷◌, ◌++◌, length, length-append, drop, get_or, arith, u64_mod,
}
use gravity_kvstore.Types.{AccountId}
use gravity_kvstore.Storage.Keys.{digits, decimal, block_key, state_root_key, account_key}

-- The number that a decimal text stands for.
abbrev value_from : ℕ → Text → ℕ
value_from acc [] = acc
value_from acc (c ∷ cs) = value_from (acc * 10 + (c - 48)) cs

abbrev pow10 : ℕ → ℕ
pow10 zero = 1
pow10 (suc k) = 10 * pow10 k

value-append :
    (acc : ℕ) (xs : Text) (c : ℕ)
    → value_from acc (xs ++ c ∷ []) ≡ value_from acc xs * 10 + (c - 48)
value-append acc [] c = refl
value-append acc (x ∷ xs) c = value-append (acc * 10 + (x - 48)) xs c

value-digits : (fuel n : ℕ) → n < pow10 fuel → value_from 0 (digits fuel n) ≡ n
unfolding digits
value-digits zero n h = omega arith
value-digits (suc fuel) n h = ground (
  arith,
  value-digits fuel (n / 10) (omega arith),
  value-append 0 (digits fuel (n / 10)) (48 + n % 10),
)

length-digits : (fuel n : ℕ) → length (digits fuel n) ≤ fuel
unfolding digits
length-digits zero n = omega arith
length-digits (suc fuel) n =
    ground (
      arith,
      length-digits fuel (n / 10),
      length-append (digits fuel (n / 10)) ((48 + n % 10) ∷ []),
    )

pub decimal-injective : (n m : ℕ) → n < u64_mod → m < u64_mod → decimal n ≡ decimal m → n ≡ m
unfolding decimal
decimal-injective n m hn hm e =
    sym (value-digits 20 n (omega arith)) ∙ ap (value_from 0) e ∙ value-digits 20 m (omega arith)

-- Two numbers in the range of `u64` with the same block key are the same, and so with the same
-- state root key.
pub keys-injective :
    (n m : ℕ)
    → n < u64_mod
    → m < u64_mod
    → (block_key n ≡ block_key m) ⊎ (state_root_key n ≡ state_root_key m)
    → n ≡ m
unfolding block_key state_root_key
keys-injective n m hn hm (inl e) = decimal-injective n m hn hm (ap (drop 6) e)
keys-injective n m hn hm (inr e) = decimal-injective n m hn hm (ap (drop 11) e)

pub length-block_key : (n : ℕ) → length (block_key n) ≢ 32
unfolding block_key decimal
length-block_key n e = omega (arith, length-digits 20 n)

pub length-state_root_key : (n : ℕ) → length (state_root_key n) ≢ 32
unfolding state_root_key decimal
length-state_root_key n e = omega (arith, length-digits 20 n)

-- A block key, a state root key, the account key of an id that has not 24 bytes, and the 32 bytes
-- of a transaction hash: no two are the same.
pub keys_distinct :
    (n m : ℕ) (id : AccountId) (hash : Bytes)
    → length hash ≡ 32
    → length id.text ≢ 24
    → (block_key n ≢ state_root_key m)
      × (block_key n ≢ account_key id)
      × (state_root_key m ≢ account_key id)
      × (block_key n ≢ hash)
      × (state_root_key m ≢ hash)
      × (account_key id ≢ hash)
unfolding block_key state_root_key account_key decimal
keys_distinct n m id hash h long = (
  λ e. omega (arith, ap (λ (k : Bytes). get_or k 0 0) e),
  λ e. omega (arith, ap (λ (k : Bytes). get_or k 0 0) e),
  λ e. omega (arith, ap (λ (k : Bytes). get_or k 0 0) e),
  λ e. length-block_key n (ap (λ (k : Bytes). length k) e ∙ h),
  λ e. length-state_root_key m (ap (λ (k : Bytes). length k) e ∙ h),
  λ e. long (omega (arith, ap (λ (k : Bytes). length k) e)),
)
