-- ===== src/KeyStore/Text.antt =====
-- What src/bin/axsh.rs, src/bin/axshd.rs and src/bin/axsh-fingerprint.rs use of `str`. Text is a list of
-- its code points.
use axsh.Prelude.{
  ℕ, suc, Bool, not, Bytes, is_empty, List, [], ◌∷◌, ◌&&◌, ◌||◌, leb, ◌==◌, if◌then◌else◌,
}

abbrev pub newline : ℕ
newline = 10

abbrev pub carriage_return : ℕ
carriage_return = 13

abbrev between : ℕ → ℕ → ℕ → Bool
between lo hi b = leb lo b && leb b hi

-- `char::is_whitespace`, the property White_Space of Unicode.
unfoldable pub is_whitespace : ℕ → Bool
is_whitespace b =
    between 9 13 b
    || b == 32
    || b == 0x85
    || b == 0xa0
    || b == 0x1680
    || between 0x2000 0x200a b
    || between 0x2028 0x2029 b
    || b == 0x202f
    || b == 0x205f
    || b == 0x3000

-- `trim_start`, `trim_end` and `trim`
unfoldable pub trim_start : Bytes → Bytes
trim_start [] = []
trim_start (b ∷ rest) = let later = trim_start rest in if is_whitespace b then later else b ∷ rest

unfoldable pub trim_end : Bytes → Bytes
trim_end [] = []
trim_end (b ∷ rest) =
    let trimmed = trim_end rest in if is_empty trimmed && is_whitespace b then [] else b ∷ trimmed

unfoldable pub trim : Bytes → Bytes
trim text = trim_end (trim_start text)

abbrev pub extend_first : ℕ → List Bytes → List Bytes
extend_first b [] = (b ∷ []) ∷ []
extend_first b (piece ∷ pieces) = (b ∷ piece) ∷ pieces

-- What stands between the newlines: one piece more than there are newlines.
unfoldable pub split : Bytes → List Bytes
split [] = [] ∷ []
split (b ∷ rest) =
    let pieces = split rest in if b == newline then [] ∷ pieces else extend_first b pieces

unfoldable pub strip_cr : Bytes → Bytes
strip_cr [] = []
strip_cr (b ∷ []) = if b == carriage_return then [] else b ∷ []
strip_cr (b ∷ (x ∷ rest)) = b ∷ strip_cr (x ∷ rest)

-- A piece that a newline ends loses a carriage return; the last one is a line only if it is not empty.
unfoldable pub ended : List Bytes → List Bytes
ended [] = []
ended (piece ∷ []) = if is_empty piece then [] else piece ∷ []
ended (piece ∷ (next ∷ pieces)) = strip_cr piece ∷ ended (next ∷ pieces)

-- `lines`
unfoldable pub lines : Bytes → List Bytes
lines text = ended (split text)

-- `split_whitespace().count()`, where `in_word` says that the character before belongs to a word.
unfoldable pub word_count : Bool → Bytes → ℕ
word_count in_word [] = 0
word_count in_word (b ∷ rest) =
    let word = not (is_whitespace b) in
    let later = word_count word rest in if not in_word && word then suc later else later
