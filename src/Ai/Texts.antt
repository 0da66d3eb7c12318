-- ===== src/Ai/Texts.antt =====
-- The methods of Python's `str` that the ai service uses.
use dsa_platform.Prelude.{
  ℕ, Bool, true, false, List, [], ◌∷◌, ◌++◌, ◌≡◌, refl, ap, ◌∙◌, ◌==◌, ◌&&◌, ◌||◌, leb,
  if◌then◌else◌, All, arith, is_empty,
}
use dsa_platform.Ai.Drafts.{Text}

-- `str.isspace`
abbrev pub is_space : ℕ → Bool
is_space c =
    (leb 9 c && leb c 13)
    || (leb 28 c && leb c 32)
    || c == 133
    || c == 160
    || c == 5760
    || (leb 8192 c && leb c 8202)
    || c == 8232
    || c == 8233
    || c == 8239
    || c == 8287
    || c == 12288

unfoldable pub strip_left : Text → Text
strip_left [] = []
strip_left (c ∷ text) = let rest = strip_left text in if is_space c then rest else c ∷ text

unfoldable pub strip_right : Text → Text
strip_right [] = []
strip_right (c ∷ text) =
    let rest = strip_right text in if is_empty rest && is_space c then [] else c ∷ rest

abbrev pub strip : Text → Text
strip text = strip_left (strip_right text)

abbrev pub flush : Text × List Text → List Text
flush ([], words) = words
flush (c ∷ word, words) = (c ∷ word) ∷ words

abbrev pub put : ℕ → Text × List Text → Text × List Text
put c (word, words) = (c ∷ word, words)

-- the word that the text starts with, and the later ones
unfoldable pub chunk : Text → Text × List Text
chunk [] = ([], [])
chunk (c ∷ text) = let rest = chunk text in if is_space c then ([], flush rest) else put c rest

-- `text.split()`
abbrev pub split_words : Text → List Text
split_words text = flush (chunk text)

abbrev pub newline : ℕ
newline = 10

-- the first line, and the later ones
unfoldable pub cut : Text → Text × List Text
cut [] = ([], [])
cut (c ∷ text) = let rest = cut text in if c == newline then ([], rest.0 ∷ rest.1) else put c rest

-- `text.split("\n")`
abbrev pub split_lines : Text → List Text
split_lines text = (cut text).0 ∷ (cut text).1

-- `separator.join(texts)`, of one character
abbrev pub join : ℕ → List Text → Text
join separator [] = []
join separator (text ∷ []) = text
join separator (text ∷ next ∷ texts) = text ++ (separator ∷ join separator (next ∷ texts))

abbrev pub IsWord : Text → Type 0
IsWord text = All (λ c. is_space c ≡ false) text

abbrev pub IsLine : Text → Type 0
IsLine text = All (λ c. (c == newline) ≡ false) text

strip_left_id : (text : Text) → IsWord text → strip_left text ≡ text
unfolding strip_left
strip_left_id [] w = refl
strip_left_id (c ∷ text) w = rw (w.0) refl

strip_right_id : (text : Text) → IsWord text → strip_right text ≡ text
unfolding strip_right
strip_right_id [] w = refl
strip_right_id (c ∷ text) w = ground (arith, strip_right_id text w.1, w.0)

pub strip-IsWord : (text : Text) → IsWord text → strip text ≡ text
strip-IsWord text w = ap strip_left (strip_right_id text w) ∙ strip_left_id text w

-- A word is read up to the white space after it.
chunk_word :
    (word : Text) (c : ℕ) (rest : Text)
    → IsWord word
    → is_space c ≡ true
    → chunk (word ++ (c ∷ rest)) ≡ (word, split_words rest)
unfolding chunk
chunk_word [] c rest w space = rw space refl
chunk_word (d ∷ word) c rest w space = rw (w.0, chunk_word word c rest w.1 space) refl

chunk_last : (word : Text) → IsWord word → chunk word ≡ (word, [])
unfolding chunk
chunk_last [] w = refl
chunk_last (d ∷ word) w = rw (w.0, chunk_last word w.1) refl

cut_line :
    (line : Text) (rest : Text)
    → IsLine line
    → cut (line ++ (newline ∷ rest)) ≡ (line, split_lines rest)
unfolding cut
cut_line [] rest w = refl
cut_line (d ∷ line) rest w = rw (w.0, cut_line line rest w.1) refl

cut_last : (line : Text) → IsLine line → cut line ≡ (line, [])
unfolding cut
cut_last [] w = refl
cut_last (d ∷ line) w = rw (w.0, cut_last line w.1) refl

-- Lines that were joined are split again.
pub split_lines-join :
    (line : Text) (lines : List Text)
    → All IsLine (line ∷ lines)
    → split_lines (join newline (line ∷ lines)) ≡ line ∷ lines
split_lines-join line [] w = ap (λ r. r.0 ∷ r.1) (cut_last line w.0)
split_lines-join line (next ∷ lines) w =
    ap (λ r. r.0 ∷ r.1) (cut_line line (join newline (next ∷ lines)) w.0)
    ∙ ap (λ r. line ∷ r) (split_lines-join next lines w.1)

abbrev pub IsToken : Text → Type 0
IsToken text = IsWord text × (is_empty text ≡ false)

flush_word :
    (word : Text) (words : List Text) → is_empty word ≡ false → flush (word, words) ≡ word ∷ words
flush_word [] words h = ground arith
flush_word (c ∷ word) words h = refl

-- Words that were joined by blanks are split again.
pub split_words-join :
    (words : List Text) → All IsToken words → split_words (join b' ' words) ≡ words
unfolding chunk
split_words-join [] w = refl
split_words-join (word ∷ []) w = ap flush (chunk_last word w.0.0) ∙ flush_word word [] w.0.1
split_words-join (word ∷ next ∷ words) w =
    ap flush (chunk_word word b' ' (join b' ' (next ∷ words)) w.0.0 refl)
    ∙ flush_word word _ w.0.1
    ∙ ap (λ r. word ∷ r) (split_words-join (next ∷ words) w.1)
