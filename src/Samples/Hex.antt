-- ===== src/Samples/Hex.antt =====
-- Hexadecimal text with small letters, for hex.
use gravity_kvstore.Prelude.{
  ℕ, ◌+◌, ◌-◌, ◌*◌, ◌/◌, ◌%◌, ◌<◌, ◌≡◌, ◌≢◌, refl, ltb, leb, ◌&&◌, if◌then◌else◌, Text, Bytes, [],
  ◌∷◌, Outcome, ok, err, panic, ◌>>=◌, arith, IsBytes,
}

abbrev hex_char : ℕ → ℕ
hex_char n = if ltb n 10 then 48 + n else 87 + n

abbrev hex_value : ℕ → Outcome Text ℕ
hex_value c =
    if leb 48 c && leb c 57
    then ok (c - 48)
    else if leb 97 c && leb c 102
    then ok (c - 87)
    else err []

abbrev pub encode : Bytes → Text
encode [] = []
encode (b ∷ bs) = hex_char (b / 16) ∷ hex_char (b % 16) ∷ encode bs

abbrev pub decode : Text → Outcome Text Bytes
decode [] = ok []
decode (c ∷ []) = err []
decode (h ∷ l ∷ cs) = do
  high ← hex_value h
  low ← hex_value l
  rest ← decode cs
  ok ((high * 16 + low) ∷ rest)

hex_value-hex_char : (n : ℕ) → n < 16 → hex_value (hex_char n) ≡ ok n
hex_value-hex_char n h = ground arith

pub decode-encode : (b : Bytes) → IsBytes b → decode (encode b) ≡ ok b
decode-encode [] h = refl
decode-encode (b ∷ bs) h =
    rw
      (
        hex_value-hex_char (b / 16) (omega arith),
        hex_value-hex_char (b % 16) (omega arith),
        decode-encode bs h.1,
      )
      (ground arith)

hex_value-returns : (c : ℕ) → hex_value c ≢ panic
hex_value-returns c e = ground arith

-- Decoding never panics.
pub decode-returns : (t : Text) → decode t ≢ panic
decode-returns [] e = cc
decode-returns (c ∷ []) e = cc
decode-returns (h ∷ l ∷ cs) e =
    ground (arith, hex_value-returns h, hex_value-returns l, decode-returns cs)
