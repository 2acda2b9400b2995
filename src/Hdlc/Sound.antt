-- ===== src/Hdlc/Sound.antt =====
-- What `decode` of src/hdlc.rs accepts.
use axsh.Prelude.{
  ℕ, suc, ◌+◌, ◌-◌, ◌*◌, ◌/◌, ◌%◌, ◌≤◌, ◌≡◌, ◌≢◌, refl, sym, ap, ◌∙◌, Bool, true, false, Bytes,
  IsByte, All, All-append, All-take, All-drop, length, take, drop, first, last,
}
use axsh.Prelude.{
  [], ◌∷◌, ◌++◌, arith, leb, leb→le, Bool-cases, inl, inr, ok, ◌>>=◌, bind-ok, ensure, ensure-ok,
}
use mathlib.Core.Path.{subst}
use axsh.Prelude.Bits.{bit_xor-lt}
use axsh.Prelude.Words.{u16_to_le_bytes}
use axsh.Hdlc.{flag, escape_xor, max_frame_size, frame_fcs, unescape, finish, decode, is_flag}
use axsh.Hdlc.RoundTrip.{fcs_bytes, finish-append}

-- A list of bytes that ends in a flag.
split_last :
    (x : ℕ) (xs : Bytes)
    → is_flag (last (x ∷ xs)) ≡ true
    → take (length xs) (x ∷ xs) ++ flag ∷ [] ≡ x ∷ xs
split_last x [] h = ground arith
split_last x (y ∷ ys) h = ap (λ (t : Bytes). x ∷ t) (split_last y ys h)

split_flags :
    (f : Bytes)
    → 2 ≤ length f
    → is_flag (first f) ≡ true
    → is_flag (last f) ≡ true
    → flag ∷ (take (length f - 2) (drop 1 f) ++ flag ∷ []) ≡ f
split_flags [] n h k = absurd (omega arith)
split_flags (x ∷ []) n h k = absurd (omega arith)
split_flags (x ∷ y ∷ ys) n h k =
    let len : suc (suc (length ys)) - 2 ≡ length ys = omega arith in
    let same : x ≡ flag = ground arith in
    rw (len, same) (ap (λ (t : Bytes). flag ∷ t) (split_last y ys k))

-- What is unescaped from bytes is bytes.
unescape-IsByte :
    (bs : Bytes) (escaped : Bool) (out r : Bytes) (e : Bool)
    → All IsByte bs
    → All IsByte out
    → unescape bs escaped out ≡ ok (r, e)
    → All IsByte r
unfolding unescape
unescape-IsByte [] escaped out r e h k p = ground arith
unescape-IsByte (b ∷ bs) true out r e h k p =
    unescape-IsByte bs false _ r e h.1
      (All-append IsByte out _ k (bit_xor-lt 8 b escape_xor h.0 (omega arith), tt)) p
unescape-IsByte (b ∷ bs) false out r e h k p = ground (
  arith,
  unescape-IsByte bs true out r e h.1 k,
  unescape-IsByte bs false (out ++ b ∷ []) r e h.1 (All-append IsByte out (b ∷ []) k (h.0, tt)),
)

last_two :
    (u : Bytes) → 2 ≤ length u → (front : Bytes) × (lo : ℕ) × (hi : ℕ) × (u ≡ front ++ lo ∷ hi ∷ [])
last_two [] h = absurd (omega arith)
last_two (x ∷ []) h = absurd (omega arith)
last_two (x ∷ y ∷ []) h = ([], x, y, refl)
last_two (x ∷ y ∷ z ∷ u) h =
    let (front, lo, hi, e) = last_two (y ∷ z ∷ u) (omega arith) in
    (x ∷ front, lo, hi, ap (λ (t : Bytes). x ∷ t) e)

fcs-eq_bytes :
    (front : Bytes) (lo hi n : ℕ)
    → IsByte lo
    → IsByte hi
    → n ≡ lo + hi * 256
    → front ++ lo ∷ hi ∷ [] ≡ front ++ u16_to_le_bytes n
fcs-eq_bytes front lo hi n hl hh q =
    let a : n % 256 ≡ lo = omega arith in let b : n / 256 % 256 ≡ hi = omega arith in rw (a, b)

finish-append_sound :
    (front p : Bytes) (lo hi : ℕ)
    → IsByte lo
    → IsByte hi
    → finish (front ++ lo ∷ hi ∷ [], false) ≡ ok p
    → front ++ lo ∷ hi ∷ [] ≡ p ++ fcs_bytes p
finish-append_sound front p lo hi hl hh e =
    let tested = sym (finish-append front lo hi) ∙ e in
    let same : front ≡ p = ground arith in
    rw (← same) (fcs-eq_bytes front lo hi (frame_fcs front) hl hh (ground arith))

finish-dangling : (u p : Bytes) → finish (u, true) ≢ ok p
unfolding finish
finish-dangling u p e = cc

finish-long : (u p : Bytes) → finish (u, false) ≡ ok p → 2 ≤ length u
unfolding finish
finish-long u p e = elim (Bool-cases (leb 2 (length u))) [
  | inl long ↦ leb→le _ _ long
  | inr short ↦ cc (e, short)
]

finish_sound :
    (u p : Bytes) (escaped : Bool)
    → All IsByte u
    → finish (u, escaped) ≡ ok p
    → (escaped ≡ false) × (u ≡ p ++ fcs_bytes p)
finish_sound u p true h e = absurd (finish-dangling u p e)
finish_sound u p false h e =
    let (front, lo, hi, s) = last_two u (finish-long u p e) in
    let last_bytes = All-last_two front lo hi (subst (All IsByte) s h) in
    (refl, s ∙ finish-append_sound front p lo hi last_bytes.0 last_bytes.1 (rw s at e))
  where
    All-last_two :
        (front : Bytes) (lo hi : ℕ) → All IsByte (front ++ lo ∷ hi ∷ []) → IsByte lo × IsByte hi
    All-last_two [] lo hi h = (h.0, h.1.0)
    All-last_two (x ∷ front) lo hi h = All-last_two front lo hi h.1

-- The four tests that `decode` makes before its loop.
decode-tests :
    (f p : Bytes)
    → decode f ≡ ok p
    → (length f ≤ max_frame_size)
      × (4 ≤ length f)
      × (is_flag (first f) ≡ true)
      × (is_flag (last f) ≡ true)
      × ((unescape (take (length f - 2) (drop 1 f)) false [] >>= finish) ≡ ok p)
unfolding decode
decode-tests f p e =
    let (_, small, e1) = bind-ok (ensure (leb (length f) max_frame_size) _) _ e in
    let (_, long, e2) = bind-ok (ensure (leb 4 (length f)) _) _ e1 in
    let (_, opening, e3) = bind-ok (ensure (is_flag (first f)) _) _ e2 in
    let (_, closing, e4) = bind-ok (ensure (is_flag (last f)) _) _ e3 in
    (
      leb→le _ _ (ensure-ok _ _ small),
      leb→le _ _ (ensure-ok _ _ long),
      ensure-ok _ _ opening,
      ensure-ok _ _ closing,
      e4,
    )

-- A frame of bytes that `decode` accepts lies between two flags, is at most `max_frame_size` long,
-- and its unescaped body is the returned payload followed by the check sequence of that payload.
pub decode_sound :
    (f p : Bytes)
    → All IsByte f
    → decode f ≡ ok p
    → (body : Bytes) × (f ≡ flag ∷ (body ++ flag ∷ []))
      × (length f ≤ max_frame_size)
      × (unescape body false [] ≡ ok (p ++ fcs_bytes p, false))
decode_sound f p h e =
    let (small, long, opening, closing, rest) = decode-tests f p e in
    let body = take (length f - 2) (drop 1 f) in
    let ((u, escaped), unescaped, finished) = bind-ok (unescape body false []) finish rest in
    let body_bytes = All-take IsByte (length f - 2) (drop 1 f) (All-drop IsByte 1 f h) in
    let (closed, same) =
      finish_sound u p escaped (unescape-IsByte body false [] u escaped body_bytes tt unescaped)
        finished in
    (body, sym (split_flags f (omega arith) opening closing), small, unescaped ∙ cc (closed, same))
