-- ===== src/Hdlc/Detection.antt =====
-- What the check sequence of src/hdlc.rs catches.
use axsh.Prelude.{
  ℕ, ◌+◌, ◌≤◌, ◌≡◌, ◌≢◌, refl, ◌∙◌, ap, Bool, false, Bytes, IsByte, All, length, length-append,
}
use axsh.Prelude.{[], ◌∷◌, ◌++◌, append-nil, Result, ok, err, ◌>>=◌, arith}
use axsh.Hdlc.{
  initial_fcs, max_frame_size, flag, Error, fcs_mismatch, frame_fcs, fold_fcs, update_fcs, unescape,
  finish, decode,
}
use axsh.Hdlc.Fcs.{
  IsU16, fold_fcs-IsU16, fold_fcs-injective, fold_fcs-append, update_fcs-IsU16,
  update_fcs-injective_right,
}
use axsh.Hdlc.Stuffing.{stuff, unescape-stuff, length-stuff}
use axsh.Hdlc.RoundTrip.{fcs_bytes, frame_fcs-lt, decode-framed, finish-append}

-- Two payloads that differ in one byte have different check sequences.
pub frame_fcs-one_byte :
    (xs ys : Bytes) (a b : ℕ)
    → All IsByte xs
    → All IsByte ys
    → IsByte a
    → IsByte b
    → frame_fcs (xs ++ a ∷ ys) ≡ frame_fcs (xs ++ b ∷ ys)
    → a ≡ b
unfolding frame_fcs fold_fcs
frame_fcs-one_byte xs ys a b hx hy ha hb e =
    let f = fold_fcs initial_fcs xs in
    let f16 : IsU16 f = fold_fcs-IsU16 xs initial_fcs hx (omega arith) in
    let a16 = fold_fcs-IsU16 ys (update_fcs f a) hy (update_fcs-IsU16 f a f16 ha) in
    let b16 = fold_fcs-IsU16 ys (update_fcs f b) hy (update_fcs-IsU16 f b f16 hb) in
    let whole : fold_fcs f (a ∷ ys) ≡ fold_fcs f (b ∷ ys) = omega (
      arith,
      a16,
      b16,
      e,
      fold_fcs-append xs (a ∷ ys) initial_fcs,
      fold_fcs-append xs (b ∷ ys) initial_fcs,
    ) in
    update_fcs-injective_right f a b f16 ha hb (
      fold_fcs-injective ys (update_fcs f a) (update_fcs f b) hy (update_fcs-IsU16 f a f16 ha)
        (update_fcs-IsU16 f b f16 hb) whole)

-- A frame that carries the check sequence of a payload, and the payload with one byte replaced by
-- another byte, is refused with `fcs_mismatch` (if it is not too long to be looked at).
pub decode-one_byte_corrupted :
    (xs ys : Bytes) (a b : ℕ)
    → All IsByte xs
    → All IsByte ys
    → IsByte a
    → IsByte b
    → a ≢ b
    → length (stuff ((xs ++ b ∷ ys) ++ fcs_bytes (xs ++ a ∷ ys))) + 2 ≤ max_frame_size
    → decode (flag ∷ (stuff ((xs ++ b ∷ ys) ++ fcs_bytes (xs ++ a ∷ ys)) ++ flag ∷ []))
      ≡ err fcs_mismatch
decode-one_byte_corrupted xs ys a b hx hy ha hb ne fits =
    let sent = xs ++ a ∷ ys in
    let got = xs ++ b ∷ ys in
    let body = got ++ fcs_bytes sent in
    let whole : unescape (stuff body ++ []) false [] ≡ ok (body, false) =
      unescape-stuff body [] [] ∙ unfold unescape in refl in
    decode-framed (stuff body)
      (omega (arith, length-stuff body, length-append got (fcs_bytes sent))) fits
    ∙ ap (λ (r : Result Error (Bytes × Bool)). r >>= finish) (rw append-nil at whole)
    ∙ finish-append got _ _
    ∙ ground (
      arith,
      frame_fcs-lt sent,
      λ (e : frame_fcs sent ≡ frame_fcs got). frame_fcs-one_byte xs ys a b hx hy ha hb e,
    )
