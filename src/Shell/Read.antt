-- ===== src/Shell/Read.antt =====
-- How `Shell::run` of app/shell.rs reads a command that is typed.
use gravity_kvstore.Prelude.{
  ℕ, ◌≤◌, ◌≡◌, refl, sym, false, Text, List, [], ◌∷◌, ◌++◌, All, arith, append-nil,
}
use gravity_kvstore.Shell.Words.{
  white, is_empty, trim_start, trim_end, trim, add_word, split, split_whitespace, words_of,
}

-- A printable character of ASCII other than the space.
abbrev pub IsGraphic : ℕ → Type 0
IsGraphic c = (33 ≤ c) × (c ≤ 126)

abbrev pub IsWord : Text → Type 0
IsWord word = (is_empty word ≡ false) × All IsGraphic word

-- The words with one space between them.
abbrev pub typed : List Text → Text
typed [] = []
typed (word ∷ []) = word
typed (word ∷ next ∷ words) = word ++ 32 ∷ typed (next ∷ words)

white-graphic : (c : ℕ) (s : Text) → IsGraphic c → white (c ∷ s) ≡ 0
unfolding white
white-graphic c [] h = ground arith
white-graphic c (c' ∷ []) h = ground arith
white-graphic c (c' ∷ c'' ∷ s) h = ground arith

white-space : (s : Text) → white (32 ∷ s) ≡ 1
unfolding white
white-space [] = refl
white-space (c ∷ []) = refl
white-space (c ∷ c' ∷ s) = refl

split-word :
    (word s : Text)
    → All IsGraphic word
    → split 0 (word ++ s) ≡ (word ++ (split 0 s).0, (split 0 s).1)
unfolding split
split-word [] s h = refl
split-word (c ∷ word) s h = ground (arith, white-graphic c (word ++ s) h.0, split-word word s h.1)

trim_end-word :
    (word s : Text) → All IsGraphic word → trim_end 0 s ≡ s → trim_end 0 (word ++ s) ≡ word ++ s
unfolding trim_end
trim_end-word [] s h e = e
trim_end-word (c ∷ word) s h e =
    ground (arith, white-graphic c (word ++ s) h.0, trim_end-word word s h.1 e)

trim_end-space : (s : Text) → is_empty s ≡ false → trim_end 0 s ≡ s → trim_end 0 (32 ∷ s) ≡ 32 ∷ s
unfolding trim_end
trim_end-space s full e = ground (arith, white-space s)

split-space : (s : Text) → split 0 (32 ∷ s) ≡ ([], add_word (split 0 s).0 (split 0 s).1)
unfolding split
split-space s = ground (arith, white-space s)

typed-full :
    (word : Text) (words : List Text) → IsWord word → is_empty (typed (word ∷ words)) ≡ false
typed-full (c ∷ word) [] h = refl
typed-full (c ∷ word) (next ∷ words) h = refl
typed-full [] words h = cc

trim_end-typed : (words : List Text) → All IsWord words → trim_end 0 (typed words) ≡ typed words
unfolding trim_end
trim_end-typed [] h = refl
trim_end-typed (word ∷ []) h = rw (sym (append-nil word)) (trim_end-word word [] h.0.1 refl)
trim_end-typed (word ∷ next ∷ words) h = trim_end-word word (32 ∷ typed (next ∷ words)) h.0.1 (
    trim_end-space (typed (next ∷ words)) (typed-full next words h.1.0)
      (trim_end-typed (next ∷ words) h.1))

trim_start-word : (word s : Text) → IsWord word → trim_start 0 (word ++ s) ≡ word ++ s
unfolding trim_start
trim_start-word [] s h = cc
trim_start-word (c ∷ word) s h = ground (arith, white-graphic c (word ++ s) h.1.0)

add_word-word : (word : Text) (words : List Text) → IsWord word → add_word word words ≡ word ∷ words
add_word-word [] words h = cc
add_word-word (c ∷ word) words h = refl

split-typed :
    (word : Text) (words : List Text)
    → IsWord word
    → All IsWord words
    → split 0 (typed (word ∷ words)) ≡ (word, words)
unfolding split
split-typed word [] h hs = ground (arith, split-word word [] h.1, append-nil word)
split-typed word (next ∷ words) h hs =
    let rest = typed (next ∷ words) in
    ground (
      arith,
      split-word word (32 ∷ rest) h.1,
      split-space rest,
      split-typed next words hs.0 hs.1,
      add_word-word next words hs.0,
      append-nil word,
    )

trim_start-typed : (words : List Text) → All IsWord words → trim_start 0 (typed words) ≡ typed words
unfolding trim_start
trim_start-typed [] h = refl
trim_start-typed (word ∷ []) h = ground (arith, trim_start-word word [] h.0, append-nil word)
trim_start-typed (word ∷ next ∷ words) h = trim_start-word word (32 ∷ typed (next ∷ words)) h.0

-- Words of printable ASCII characters, typed with one space between them, are read as these words.
pub words_of-typed : (words : List Text) → All IsWord words → words_of (typed words) ≡ words
unfolding words_of trim split_whitespace trim_start trim_end split
words_of-typed [] h = refl
words_of-typed (word ∷ words) h =
    rw
      (
        trim_start-typed (word ∷ words) h,
        trim_end-typed (word ∷ words) h,
        split-typed word words h.0 h.1,
      )
      (add_word-word word words h.0)
