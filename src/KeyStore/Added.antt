-- ===== src/KeyStore/Added.antt =====
-- src/bin/axsh.rs: what `append_known_host` adds, `load_known_hosts` reads.
use axsh.Prelude.{
  ℕ, suc, ◌+◌, ◌≤◌, ◌≡◌, ◌≢◌, refl, sym, ap, ◌∙◌, true, false, Bool-cases, inl, inr, Bytes, IsByte,
  All, All-append, length, List, [], ◌∷◌, ◌++◌, append_assoc, not, ◌==◌, arith, none, if◌then◌else◌,
  ok, bind-ok,
}
use mathlib.Core.Path.{subst}
use axsh.Prelude.Tables.{every, every_sound}
use axsh.Base64.{encode_base64, alphabet_at}
use axsh.Base64.Alphabet.{encode_base64-All}
use axsh.Base64.RoundTrip.{length-encode_base64}
use axsh.KeyFile.{
  conn_authorized_key_kind, parse_known_host, format_known_host, format_authorized_conn_key,
}
use axsh.KeyFile.Lines.{parse_known_host-format}
use axsh.KeyStore.Text.{newline, is_whitespace, trim, split}
use axsh.KeyStore.Load.{
  File, missing, unreadable, holds, Map, skipped, get, load_line, load_lines, load_known_hosts,
  needs_newline, entry_line, append_known_host,
}
use axsh.KeyStore.Pieces.{OneLine, IsWord, split-newline, split-line, trim-IsWord}
use axsh.KeyStore.Loaded.{load_lines-append, load_line-nil, load_lines-lines}

-- A host name of main: not empty, no white space in it, and no comment.
pub record IsHost (host : Bytes) : Type 0 where
  pub first : ℕ
  pub rest : Bytes
  pub shape : host ≡ first ∷ rest
  pub word : IsWord host
  pub not_hash : (first == 35) ≡ false

newline-ne : (b : ℕ) → is_whitespace b ≡ false → b ≢ newline
unfolding is_whitespace
newline-ne b h e = cc (ap is_whitespace (sym e) ∙ h)

pub space-ne : (b : ℕ) → is_whitespace b ≡ false → b ≢ 32
unfolding is_whitespace
space-ne b h e = cc (ap is_whitespace (sym e) ∙ h)

pub All-map : {P Q : ℕ → Type 0} (xs : Bytes) → ((b : ℕ) → P b → Q b) → All P xs → All Q xs
All-map [] f h = tt
All-map (x ∷ xs) f h = (f x h.0, All-map xs f h.1)

pub encode_base64-IsWord : (key : Bytes) → All IsByte key → IsWord (encode_base64 key)
unfolding every alphabet_at is_whitespace
encode_base64-IsWord key b =
    encode_base64-All (λ b. is_whitespace b ≡ false) key
      (λ v h. ground (arith, every_sound (λ v. not (is_whitespace (alphabet_at v))) 64 refl v h))
      refl b

pub kind-IsWord : IsWord conn_authorized_key_kind
unfolding is_whitespace
kind-IsWord = (
  refl,
  (
    refl,
    (refl, (refl, (refl, (refl, (refl, (refl, (refl, (refl, (refl, (refl, (refl, tt))))))))))),
  ),
)

pub IsWord-OneLine : (xs : Bytes) → IsWord xs → OneLine xs
IsWord-OneLine xs = All-map xs newline-ne

pub space-newline : 32 ≢ newline
space-newline e = absurd (omega arith)

pub format_known_host-OneLine :
    (host key : Bytes) → IsWord host → All IsByte key → OneLine (format_known_host host key)
unfolding format_known_host format_authorized_conn_key
format_known_host-OneLine host key w b =
    All-append (λ b. b ≢ newline) host (32 ∷ (conn_authorized_key_kind ++ (32 ∷ encode_base64 key)))
      (IsWord-OneLine host w)
      (
        space-newline,
        All-append (λ b. b ≢ newline) conn_authorized_key_kind (32 ∷ encode_base64 key)
            (IsWord-OneLine conn_authorized_key_kind kind-IsWord)
            (space-newline, IsWord-OneLine (encode_base64 key) (encode_base64-IsWord key b)),
      )

-- The line that is added is its own trimmed form.
trim-line :
    (host text : Bytes)
    → IsHost host
    → IsWord text
    → 1 ≤ length text
    → trim (host ++ (32 ∷ (conn_authorized_key_kind ++ (32 ∷ text))))
      ≡ host ++ (32 ∷ (conn_authorized_key_kind ++ (32 ∷ text)))
trim-line host [] h w n = absurd (omega arith)
trim-line host (y ∷ ys) h w n =
    subst (λ (t : Bytes). trim t ≡ t) (regroup ∙ ap (λ (t : Bytes). t ++ tail) (sym h.shape))
      (trim-IsWord (h.rest ++ middle) ys h.first y (subst IsWord h.shape h.word).0 w)
  where
    middle : Bytes
    middle = 32 ∷ (conn_authorized_key_kind ++ (32 ∷ []))

    tail : Bytes
    tail = 32 ∷ (conn_authorized_key_kind ++ (32 ∷ (y ∷ ys)))

    regroup : (h.first ∷ (h.rest ++ middle)) ++ (y ∷ ys) ≡ (h.first ∷ h.rest) ++ tail
    regroup = ap (λ (t : Bytes). h.first ∷ t) (append_assoc h.rest middle (y ∷ ys))

pub encode_base64-filled : (key : Bytes) → 1 ≤ length key → 1 ≤ length (encode_base64 key)
encode_base64-filled key n = omega (arith, length-encode_base64 key)

pub trim-format_known_host :
    (host key : Bytes)
    → IsHost host
    → All IsByte key
    → 1 ≤ length key
    → trim (format_known_host host key) ≡ format_known_host host key
unfolding format_known_host format_authorized_conn_key
trim-format_known_host host key h b n =
    trim-line host (encode_base64 key) h (encode_base64-IsWord key b) (encode_base64-filled key n)

pub skipped-format_known_host :
    (host key : Bytes) → IsHost host → skipped (format_known_host host key) ≡ false
unfolding format_known_host
skipped-format_known_host host key h = rw (h.shape, h.not_hash)

-- A line that is added is read as its entry, behind hosts without this one.
load_line-format_known_host :
    (lineno : ℕ) (map : Map) (host key : Bytes)
    → IsHost host
    → All IsByte key
    → 1 ≤ length key
    → get host map ≡ none
    → load_line parse_known_host lineno map (format_known_host host key) ≡ ok ((host, key) ∷ map)
unfolding load_line
load_line-format_known_host lineno map host key h b n new = rw (
  trim-format_known_host host key h b n,
  skipped-format_known_host host key h,
  parse_known_host-format host key (All-map host space-ne h.word) (omega (arith, ap length h.shape))
      b n,
  new,
)

-- A text that ends in a newline has an empty last piece.
ended_pieces :
    (b : ℕ) (text : Bytes)
    → needs_newline (b ∷ text) ≡ false
    → (piece : Bytes) × (pieces : List Bytes) × (split (b ∷ text) ≡ piece ∷ (pieces ++ ([] ∷ [])))
      × ((ys : Bytes) → split ((b ∷ text) ++ ys) ≡ piece ∷ (pieces ++ split ys))
unfolding split needs_newline
ended_pieces b [] closed =
    let end : (b == newline) ≡ true = ground arith in ([], [], rw end, λ ys. rw end)
ended_pieces b (x ∷ rest) closed =
    let (piece, pieces, e, f) = ended_pieces x rest closed in
    elim (Bool-cases (b == newline)) [
      | inl end ↦ ([], piece ∷ pieces, rw (end, e), λ ys. rw (end, f ys))
      | inr more ↦ (b ∷ piece, pieces, rw (more, e), λ ys. rw (more, f ys))
    ]

closed_pieces :
    (text : Bytes)
    → needs_newline text ≡ false
    → (pieces : List Bytes) × (split text ≡ pieces ++ ([] ∷ []))
      × ((ys : Bytes) → split (text ++ ys) ≡ pieces ++ split ys)
closed_pieces [] closed = ([], unfold split in refl, λ ys. refl)
closed_pieces (b ∷ text) closed =
    let (piece, pieces, e, f) = ended_pieces b text closed in (piece ∷ pieces, e, f)

module _ (host key : Bytes) (h : IsHost host) (b : All IsByte key) (n : 1 ≤ length key) where
  split-entry_line : split (entry_line host key) ≡ format_known_host host key ∷ ([] ∷ [])
  unfolding split
  split-entry_line =
      split-newline (format_known_host host key) []
      ∙ ap (λ (ps : List Bytes). ps ++ ([] ∷ []))
          (split-line (format_known_host host key) (format_known_host-OneLine host key h.word b))

  load_lines-added :
      (lineno : ℕ) (map : Map)
      → get host map ≡ none
      → load_lines parse_known_host lineno map (format_known_host host key ∷ ([] ∷ []))
        ≡ ok ((host, key) ∷ map)
  unfolding load_lines
  load_lines-added lineno map new = rw (
    load_line-format_known_host lineno map host key h b n new,
    load_line-nil parse_known_host (suc lineno) ((host, key) ∷ map),
  )

  -- The pieces of a text and behind them those of the line.
  load_lines-entry_line :
      (map : Map) (pieces : List Bytes)
      → load_lines parse_known_host 0 [] pieces ≡ ok map
      → get host map ≡ none
      → load_lines parse_known_host 0 [] (pieces ++ split (entry_line host key))
        ≡ ok ((host, key) ∷ map)
  load_lines-entry_line map pieces loaded new =
      rw
        (
          split-entry_line,
          load_lines-append parse_known_host 0 [] pieces (format_known_host host key ∷ ([] ∷ [])),
          loaded,
        )
        (load_lines-added (0 + length pieces) map new)

  load_lines-nil :
      (lineno : ℕ) (map : Map) → load_lines parse_known_host lineno map ([] ∷ []) ≡ ok map
  unfolding load_lines
  load_lines-nil lineno map = rw (load_line-nil parse_known_host lineno map)

  load_lines-last :
      (map : Map) (pieces : List Bytes)
      → load_lines parse_known_host 0 [] (pieces ++ ([] ∷ [])) ≡ ok map
      → load_lines parse_known_host 0 [] pieces ≡ ok map
  load_lines-last map pieces e =
      let (m, e1, e2) =
        bind-ok (load_lines parse_known_host 0 [] pieces) _
          (sym (load_lines-append parse_known_host 0 [] pieces ([] ∷ [])) ∙ e) in
      e1 ∙ sym (load_lines-nil (0 + length pieces) m) ∙ e2

  added :
      (text : Bytes) (map : Map)
      → load_lines parse_known_host 0 [] (split text) ≡ ok map
      → get host map ≡ none
      → load_lines parse_known_host 0 [] (
          split
            (text ++ ((if needs_newline text then newline ∷ [] else []) ++ entry_line host key)))
        ≡ ok ((host, key) ∷ map)
  added text map loaded new = elim (Bool-cases (needs_newline text)) [
    | inl cut ↦
        rw (cut, split-newline text (entry_line host key))
          (load_lines-entry_line map (split text) loaded new)
    | inr closed ↦
        let (pieces, e, f) = closed_pieces text closed in
        rw (closed, f (entry_line host key))
          (load_lines-entry_line map pieces (load_lines-last map pieces (rw e at loaded)) new)
  ]

  -- What `append_known_host` writes, `load_known_hosts` reads: where the file is missing or loads, is
  -- writable, and does not have the host yet, the file that is left loads to the same hosts and this
  -- one, whether or not the old file ended in a newline. The host is one word that does not begin with
  -- a hash, and the key is not empty.
  pub load_known_hosts-append_known_host :
      (file : File) (map : Map)
      → load_known_hosts file ≡ ok map
      → get host map ≡ none
      → (text : Bytes) × (append_known_host file true host key ≡ ok text)
        × (load_known_hosts (holds text) ≡ ok ((host, key) ∷ map))
  unfolding load_known_hosts append_known_host load_lines
  load_known_hosts-append_known_host unreadable map loaded new = cc loaded
  load_known_hosts-append_known_host missing map loaded new = (
    _,
    refl,
    load_lines-lines parse_known_host 0 [] (entry_line host key)
        ∙ load_lines-entry_line map [] loaded new,
  )
  load_known_hosts-append_known_host (holds contents) map loaded new = (
    _,
    refl,
    load_lines-lines parse_known_host 0 [] _
        ∙ added contents map (sym (load_lines-lines parse_known_host 0 [] contents) ∙ loaded) new,
  )
