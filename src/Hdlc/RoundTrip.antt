-- ===== src/Hdlc/RoundTrip.antt =====
-- `decode` of src/hdlc.rs against `encode`.
use axsh.Prelude.{
  ℕ, suc, ◌+◌, ◌-◌, ◌*◌, ◌≤◌, ◌<◌, ◌≡◌, refl, sym, ◌∙◌, ap, Bool, true, false, inl, inr,
}
use axsh.Prelude.{Bytes, length, length-append, take, last, get_or, take-append, last-append}
use axsh.Prelude.{
  [], ◌∷◌, ◌++◌, append_assoc, append-nil, some, Result, ok, err, ◌>>=◌, arith, leb, leb→le, le→leb,
  ◌==◌, if◌then◌else◌, Bool-cases,
}
use native.Mathlib.Numerals.{add-one}
use axsh.Prelude.Words.{u16_to_le_bytes, u16_from_le_bytes}
use axsh.Hdlc.{
  flag, max_frame_size, Error, frame_too_large, fcs_mismatch, frame_fcs, encode, decode, unescape,
  finish,
}
use axsh.Hdlc.Stuffing.{stuff, stuff-append, escape_into-stuff, unescape-stuff, length-stuff}

-- The check sequence of a payload, as it goes on the wire.
abbrev pub fcs_bytes : Bytes → Bytes
fcs_bytes payload = u16_to_le_bytes (frame_fcs payload)

-- A frame is the stuffed payload and check sequence between two flags.
pub encode-framed : (p : Bytes) → encode p ≡ flag ∷ (stuff (p ++ fcs_bytes p) ++ flag ∷ [])
unfolding encode
encode-framed p = rw (
  escape_into-stuff p (flag ∷ []),
  escape_into-stuff (fcs_bytes p) (flag ∷ stuff p),
  stuff-append p (fcs_bytes p),
  append_assoc (stuff p) (stuff (fcs_bytes p)) (flag ∷ []),
)

pub frame_fcs-lt : (p : Bytes) → frame_fcs p < 65536
unfolding frame_fcs
frame_fcs-lt p = omega arith

-- The four tests of `decode` on a string that has both flags.
pub decode-framed :
    (body : Bytes)
    → 2 ≤ length body
    → length body + 2 ≤ max_frame_size
    → decode (flag ∷ (body ++ flag ∷ [])) ≡ (unescape body false [] >>= finish)
unfolding decode
decode-framed body two fits =
    let n : length (body ++ flag ∷ []) ≡ length body + 1 = length-append body (flag ∷ []) in
    let size : leb (suc (length (body ++ flag ∷ []))) max_frame_size ≡ true =
      le→leb _ _ (omega (arith, n)) in
    let long : leb 4 (suc (length (body ++ flag ∷ []))) ≡ true = le→leb _ _ (omega (arith, n)) in
    let inner : take (suc (length (body ++ flag ∷ [])) - 2) (body ++ flag ∷ []) ≡ body =
      take-append _ body (flag ∷ []) (omega (arith, n)) in
    let closing : last (flag ∷ (body ++ flag ∷ [])) ≡ some flag = last-append (flag ∷ body) flag in
    rw (size, long, inner, closing)

get_or-append_two :
    (p : Bytes) (lo hi n : ℕ)
    → length p ≡ n
    → (get_or (p ++ lo ∷ hi ∷ []) n 0 ≡ lo) × (get_or (p ++ lo ∷ hi ∷ []) (n + 1) 0 ≡ hi)
get_or-append_two [] lo hi n h = ground arith
get_or-append_two (x ∷ p) lo hi n h =
    let (a, b) = get_or-append_two p lo hi (length p) refl in
    rw (sym h, add-one) (a, rw add-one at b)

pub finish-append :
    (p : Bytes) (lo hi : ℕ)
    → finish (p ++ lo ∷ hi ∷ [], false)
      ≡ (if frame_fcs p == u16_from_le_bytes lo hi then ok p else err fcs_mismatch)
unfolding finish
finish-append p lo hi =
    let n : length (p ++ lo ∷ hi ∷ []) ≡ length p + 2 = length-append p (lo ∷ hi ∷ []) in
    let two : leb 2 (length (p ++ lo ∷ hi ∷ [])) ≡ true = le→leb _ _ (omega (arith, n)) in
    let size : length (p ++ lo ∷ hi ∷ []) - 2 ≡ length p = omega (arith, n) in
    let front : take (length p) (p ++ lo ∷ hi ∷ []) ≡ p = take-append _ p (lo ∷ hi ∷ []) refl in
    let (a, b) = get_or-append_two p lo hi (length p) refl in
    rw (two, size, front, a, b) (ground arith)

unescape-fcs :
    (p : Bytes) → unescape (stuff (p ++ fcs_bytes p)) false [] ≡ ok (p ++ fcs_bytes p, false)
unescape-fcs p =
    let whole : unescape (stuff (p ++ fcs_bytes p) ++ []) false [] ≡ ok (p ++ fcs_bytes p, false) =
      unescape-stuff (p ++ fcs_bytes p) [] [] ∙ unfold unescape in refl in
    rw append-nil at whole

finish-fcs : (p : Bytes) → finish (p ++ fcs_bytes p, false) ≡ ok p
finish-fcs p = rw finish-append (ground (arith, frame_fcs-lt p))

pub length-encode :
    (p : Bytes) → (length p + 4 ≤ length (encode p)) × (length (encode p) ≤ 2 * length p + 6)
length-encode p = rw encode-framed (
    omega (
      arith,
      length-append (stuff (p ++ fcs_bytes p)) (flag ∷ []),
      length-stuff (p ++ fcs_bytes p),
      length-append p (fcs_bytes p),
    ))

-- Decoding an encoded payload gives the payload back exactly when the frame is at most 64 KiB long;
-- otherwise it fails with `frame_too_large`.
pub decode-encode :
    (p : Bytes)
    → decode (encode p)
      ≡ (if leb (length (encode p)) max_frame_size then ok p else err frame_too_large)
decode-encode p = elim (Bool-cases (leb (length (encode p)) max_frame_size)) [
  | inl fits ↦ rw fits (
      rw encode-framed (
        decode-framed (stuff (p ++ fcs_bytes p))
          (omega (arith, length-stuff (p ++ fcs_bytes p), length-append p (fcs_bytes p)))
          (omega (
            arith,
            leb→le _ _ fits,
            ap length (encode-framed p),
            length-append (stuff (p ++ fcs_bytes p)) (flag ∷ []),
          ))
        ∙ ap (λ (r : Result Error (Bytes × Bool)). r >>= finish) (unescape-fcs p)
        ∙ finish-fcs p))
  | inr large ↦ rw large (unfold decode in rw large)
]

-- A payload of at most 32765 bytes survives the link whatever its bytes are.
pub decode-encode_small : (p : Bytes) → length p ≤ 32765 → decode (encode p) ≡ ok p
decode-encode_small p h =
    let fits : leb (length (encode p)) max_frame_size ≡ true =
      le→leb _ _ (omega (arith, length-encode p)) in
    decode-encode p ∙ rw fits
