-- ===== src/State/Encoding.antt =====
-- The bytes that `DefaultHasher` is given: `write_u64` in little-endian order (the byte order of
-- the supported machines), `str::hash` with its terminator, and `to_be_bytes`.
use gravity_kvstore.Prelude.{ℕ, zero, suc, ◌%◌, ◌/◌, Text, Bytes, [], ◌∷◌, ◌++◌}

unfoldable pub le_bytes : ℕ → ℕ → Bytes
le_bytes zero n = []
le_bytes (suc w) n = (n % 256) ∷ le_bytes w (n / 256)

unfoldable pub u64_le : ℕ → Bytes
unfolding le_bytes
u64_le n = le_bytes 8 n

abbrev be_bytes : ℕ → ℕ → Bytes → Bytes
be_bytes zero n acc = acc
be_bytes (suc w) n acc = be_bytes w (n / 256) ((n % 256) ∷ acc)

unfoldable pub u64_be : ℕ → Bytes
u64_be n = be_bytes 8 n []

unfoldable pub str_hash : Text → Bytes
str_hash s = s ++ 0xff ∷ []
