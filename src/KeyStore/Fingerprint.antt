-- ===== src/KeyStore/Fingerprint.antt =====
-- src/bin/axsh-fingerprint.rs: the key of a line that the other programs write.
use axsh.Prelude.{
  suc, ◌≤◌, ◌≡◌, ◌≢◌, refl, ap, ◌∙◌, true, false, Bytes, IsByte, All, All-append, length, [], ◌∷◌,
  ◌++◌, arith, ok,
}
use axsh.Base64.{codes, encode_base64}
use axsh.KeyFile.{conn_authorized_key_kind, format_known_host, format_authorized_conn_key}
use axsh.KeyFile.Lines.{parse_known_host-format, parse_authorized_conn_key-format}
use axsh.KeyStore.Text.{newline, is_whitespace, trim, split, ended, strip_cr, lines, word_count}
use axsh.KeyStore.Load.{
  holds, skipped, public_key_of, public_key_line, public_key_lines, load_public_key,
}
use axsh.KeyStore.Pieces.{OneLine, IsWord, split-newline, split-line, trim-IsWord, trim-strip_cr}
use axsh.KeyStore.Added.{
  IsHost, All-map, space-ne, kind-IsWord, space-newline, IsWord-OneLine, encode_base64-IsWord,
  encode_base64-filled, trim-format_known_host, skipped-format_known_host,
  format_known_host-OneLine,
}

-- The words of a line: one for each run of characters between spaces.
word_count-in_word :
    (xs rest : Bytes) → IsWord xs → word_count true (xs ++ (32 ∷ rest)) ≡ word_count false rest
unfolding word_count is_whitespace
word_count-in_word [] rest h = refl
word_count-in_word (x ∷ xs) rest h = rw h.0 (word_count-in_word xs rest h.1)

word_count-last : (xs : Bytes) → IsWord xs → word_count true xs ≡ 0
unfolding word_count
word_count-last [] h = refl
word_count-last (x ∷ xs) h = rw h.0 (word_count-last xs h.1)

word_count-word :
    (xs rest : Bytes)
    → IsWord xs
    → 1 ≤ length xs
    → word_count false (xs ++ (32 ∷ rest)) ≡ suc (word_count false rest)
unfolding word_count
word_count-word [] rest h n = absurd (omega arith)
word_count-word (x ∷ xs) rest h n = rw h.0 (ap suc (word_count-in_word xs rest h.1))

word_count-one : (xs : Bytes) → IsWord xs → 1 ≤ length xs → word_count false xs ≡ 1
unfolding word_count
word_count-one [] h n = absurd (omega arith)
word_count-one (x ∷ xs) h n = rw h.0 (ap suc (word_count-last xs h.1))

-- A file of one line.
lines-one : (line : Bytes) → OneLine line → lines (line ++ (newline ∷ [])) ≡ strip_cr line ∷ []
unfolding lines ended split
lines-one line h = rw (split-newline line [], split-line line h)

load_public_key-one :
    (line key : Bytes)
    → OneLine line
    → trim line ≡ line
    → skipped line ≡ false
    → public_key_of 0 line ≡ ok key
    → load_public_key (holds (line ++ (newline ∷ []))) ≡ ok key
unfolding load_public_key public_key_lines public_key_line
load_public_key-one line key h t s e = rw (lines-one line h, trim-strip_cr line, t, s, e) refl

module _ (key : Bytes) (b : All IsByte key) (n : 1 ≤ length key) where
  text-IsWord : IsWord (encode_base64 key)
  text-IsWord = encode_base64-IsWord key b

  authorized_words : word_count false (format_authorized_conn_key key) ≡ 2
  unfolding format_authorized_conn_key
  authorized_words =
      word_count-word conn_authorized_key_kind (encode_base64 key) kind-IsWord (omega arith)
      ∙ ap suc (word_count-one (encode_base64 key) text-IsWord (encode_base64-filled key n))

  authorized_OneLine : OneLine (format_authorized_conn_key key)
  unfolding format_authorized_conn_key
  authorized_OneLine =
      All-append (λ b. b ≢ newline) conn_authorized_key_kind (32 ∷ encode_base64 key)
        (IsWord-OneLine conn_authorized_key_kind kind-IsWord)
        (space-newline, IsWord-OneLine (encode_base64 key) text-IsWord)

  trim_text :
      (text : Bytes)
      → IsWord text
      → 1 ≤ length text
      → trim (conn_authorized_key_kind ++ (32 ∷ text)) ≡ conn_authorized_key_kind ++ (32 ∷ text)
  unfolding is_whitespace
  trim_text [] w m = absurd (omega arith)
  trim_text (y ∷ ys) w m = trim-IsWord (codes "ldsa-ed25519 ") ys 109 y refl w

  trim_authorized : trim (format_authorized_conn_key key) ≡ format_authorized_conn_key key
  unfolding format_authorized_conn_key
  trim_authorized = trim_text (encode_base64 key) text-IsWord (encode_base64-filled key n)

  skipped_authorized : skipped (format_authorized_conn_key key) ≡ false
  unfolding format_authorized_conn_key
  skipped_authorized = refl

  authorized-key : public_key_of 0 (format_authorized_conn_key key) ≡ ok key
  unfolding public_key_of
  authorized-key = rw (authorized_words, parse_authorized_conn_key-format key b n)

  module _ (host : Bytes) (h : IsHost host) where
    host_words : word_count false (format_known_host host key) ≡ 3
    unfolding format_known_host
    host_words =
        word_count-word host (format_authorized_conn_key key) h.word
          (omega (arith, ap length h.shape))
        ∙ ap suc authorized_words

    host-key : public_key_of 0 (format_known_host host key) ≡ ok key
    unfolding public_key_of
    host-key = rw (
      host_words,
      parse_known_host-format host key (All-map host space-ne h.word)
          (omega (arith, ap length h.shape)) b n,
    )

    -- The fingerprinter finds the key in a file of one line, whether that is the line of a public key or
    -- the line of a known host. The host is one word that does not begin with a hash, and the key is not
    -- empty.
    pub load_public_key-format :
        (load_public_key (holds (format_authorized_conn_key key ++ (newline ∷ []))) ≡ ok key)
        × (load_public_key (holds (format_known_host host key ++ (newline ∷ []))) ≡ ok key)
    load_public_key-format = (
      load_public_key-one (format_authorized_conn_key key) key authorized_OneLine trim_authorized
          skipped_authorized authorized-key,
      load_public_key-one (format_known_host host key) key
          (format_known_host-OneLine host key h.word b) (trim-format_known_host host key h b n)
          (skipped-format_known_host host key h) host-key,
    )
