-- ===== src/Shell/Words.antt =====
-- The words of a line in `Shell::run` of app/shell.rs: `trim` and `split_whitespace` of the
-- standard library, over the UTF-8 bytes of the line.
use gravity_kvstore.Prelude.{
  ℕ, zero, suc, ◌-◌, ◌==◌, ◌&&◌, ◌||◌, leb, ltb, if◌then◌else◌, Bool, true, false, Text, List, [],
  ◌∷◌,
}

-- How many bytes the white space has that a text begins with; 0 if it begins with another
-- character. U+0009 to U+000D and U+0020; U+0085 and U+00A0; U+1680, U+2000 to U+200A, U+2028,
-- U+2029, U+202F, U+205F and U+3000.
unfoldable pub white : Text → ℕ
white [] = 0
white (c ∷ []) = if c == 32 || (leb 9 c && leb c 13) then 1 else 0
white (c ∷ c' ∷ []) =
    if c == 32 || (leb 9 c && leb c 13)
    then 1
    else if c == 0xc2 && (c' == 0x85 || c' == 0xa0)
    then 2
    else 0
white (c ∷ c' ∷ c'' ∷ _) =
    if c == 32 || (leb 9 c && leb c 13)
    then 1
    else if c == 0xc2 && (c' == 0x85 || c' == 0xa0)
    then 2
    else if c == 0xe1 && c' == 0x9a && c'' == 0x80
    then 3
    else if c == 0xe2 && c' == 0x80 && leb 0x80 c'' && leb c'' 0x8a
    then 3
    else if c == 0xe2 && c' == 0x80 && (c'' == 0xa8 || c'' == 0xa9 || c'' == 0xaf)
    then 3
    else if c == 0xe2 && c' == 0x81 && c'' == 0x9f
    then 3
    else if c == 0xe3 && c' == 0x80 && c'' == 0x80
    then 3
    else 0

abbrev pub is_empty {ℓ} : {A : Type ℓ} → List A → Bool
is_empty [] = true
is_empty (a ∷ rest) = false

-- The three walk over a text byte by byte. The number says how many bytes of a white space are
-- still to come.
unfoldable pub trim_start : ℕ → Text → Text
trim_start n [] = []
trim_start (suc n) (c ∷ s) = trim_start n s
trim_start zero (c ∷ s) =
    let n = white (c ∷ s) in let rest = trim_start (n - 1) s in if ltb 0 n then rest else c ∷ s

unfoldable pub trim_end : ℕ → Text → Text
trim_end n [] = []
trim_end (suc n) (c ∷ s) = let rest = trim_end n s in if is_empty rest then [] else c ∷ rest
trim_end zero (c ∷ s) =
    let n = white (c ∷ s) in
    let rest = trim_end (n - 1) s in if ltb 0 n && is_empty rest then [] else c ∷ rest

unfoldable pub trim : Text → Text
unfolding trim_start trim_end
trim s = trim_end 0 (trim_start 0 s)

abbrev pub add_word : Text → List Text → List Text
add_word [] words = words
add_word (c ∷ word) words = (c ∷ word) ∷ words

-- The word that goes on at the front of the text, and the words after it.
unfoldable pub split : ℕ → Text → Text × List Text
split n [] = ([], [])
split (suc n) (c ∷ s) = split n s
split zero (c ∷ s) =
    let n = white (c ∷ s) in
    let (word, words) = split (n - 1) s in
    if ltb 0 n then ([], add_word word words) else (c ∷ word, words)

unfoldable pub split_whitespace : Text → List Text
split_whitespace s = let (word, words) = split 0 s in add_word word words

-- `line.trim().split_whitespace().collect()`
unfoldable pub words_of : Text → List Text
words_of line = split_whitespace (trim line)
