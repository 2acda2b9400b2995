-- ===== src/Hdlc/Reader/Frames.antt =====
-- What `read_frame` of src/hdlc.rs takes from a stream: encoded frames, and what it makes of others.
use axsh.Prelude.{
  ℕ, ◌+◌, ◌≤◌, ◌<◌, ◌≡◌, ◌≢◌, refl, ap, ◌∙◌, true, false, Bytes, All, All-append, length,
  length-append, List, [], ◌∷◌, ◌++◌, append_assoc, append-nil, Option, none, some, arith,
  Bool-cases, inl, inr, leb, leb-false, lt→leb, ◌==◌, Result, ok, err,
}
use mathlib.Core.Path.{subst}
use axsh.Hdlc.{flag, max_frame_size, encode}
use axsh.Hdlc.Stuffing.{stuff, stuff-ne-flag}
use axsh.Hdlc.RoundTrip.{fcs_bytes, encode-framed}
use axsh.Hdlc.Reader.{
  Incoming, byte, failed, would_block, ReadError, push_frame_byte, after_push, read_loop,
  read_frame, incoming,
}

abbrev pub NoFlag : Bytes → Type 0
NoFlag = All (λ b. b ≢ flag)

-- Bytes before the first flag are dropped.
skip_noise :
    (noise : Bytes) (rest : List Incoming) (frame : Bytes)
    → NoFlag noise
    → read_loop (incoming noise ++ rest) frame false ≡ read_loop rest frame false
unfolding read_loop
skip_noise [] rest frame h = refl
skip_noise (b ∷ noise) rest frame h = ground (arith, skip_noise noise rest frame h.1, h.0)

-- Within a frame everything up to the next flag is collected.
collect :
    (body : Bytes) (rest : List Incoming) (frame : Bytes)
    → NoFlag body
    → length frame + length body < max_frame_size
    → read_loop (incoming body ++ byte flag ∷ rest) frame true
      ≡ (ok (some ((frame ++ body) ++ flag ∷ [])), rest)
unfolding read_loop push_frame_byte
collect [] rest frame h fits = rw (lt→leb max_frame_size (length frame) (omega arith), append-nil)
collect (b ∷ body) rest frame h fits =
    let room : leb max_frame_size (length frame) ≡ false = lt→leb _ _ (omega arith) in
    let other : (b == flag) ≡ false = ground (arith, h.0) in
    rw (room, other)
      (collect body rest (frame ++ b ∷ []) h.1 (omega (arith, length-append frame (b ∷ [])))
        ∙ ap (λ (t : Bytes). finished t) (append_assoc frame (b ∷ []) body))
  where
    finished : Bytes → Result ReadError (Option Bytes) × List Incoming
    finished t = (ok (some (t ++ flag ∷ [])), rest)

pub incoming-append : (xs ys : Bytes) → incoming (xs ++ ys) ≡ incoming xs ++ incoming ys
incoming-append [] ys = refl
incoming-append (x ∷ xs) ys = ap (λ (t : List Incoming). byte x ∷ t) (incoming-append xs ys)

start :
    (rest : List Incoming) (frame : Bytes)
    → read_loop (byte flag ∷ rest) frame false ≡ read_loop rest (flag ∷ []) true
unfolding read_loop
start rest frame = refl

-- Behind any bytes that hold no flag, an encoded payload of at most 64 KiB is read as one frame, and
-- nothing behind it is consumed.
pub read_frame-encode :
    (noise p : Bytes) (rest : List Incoming)
    → NoFlag noise
    → length (encode p) ≤ max_frame_size
    → read_frame (incoming (noise ++ encode p) ++ rest) ≡ (ok (some (encode p)), rest)
unfolding read_frame
read_frame-encode noise p rest h fits =
    let body = stuff (p ++ fcs_bytes p) in
    let size : length body + 2 ≤ max_frame_size =
      omega (arith, ap length (encode-framed p), length-append body (flag ∷ [])) in
    rw (incoming-append, append_assoc, skip_noise noise _ [] h, encode-framed, incoming-append)
      (rw append_assoc (
        start _ []
        ∙ collect body rest (flag ∷ []) (stuff-ne-flag (p ++ fcs_bytes p)) (omega arith)))

-- A frame on the wire: two flags with none between them, and no longer than the limit.
pub record IsFrame (f : Bytes) : Type 0 where
  pub body : Bytes
  pub shape : f ≡ flag ∷ (body ++ flag ∷ [])
  pub inside : NoFlag body
  pub fits : length f ≤ max_frame_size

abbrev pub ReturnsFrame : Result ReadError (Option Bytes) × List Incoming → Type 0
ReturnsFrame (ok (some f), rest) = IsFrame f
ReturnsFrame (ok none, rest) = Unit
ReturnsFrame (err e, rest) = Unit

module _ (b : ℕ) (rest : List Incoming) (body : Bytes) (inside : NoFlag body) where
  push_IsFrame :
      (frame : Bytes)
      → frame ≡ flag ∷ body
      → (NoFlag (body ++ b ∷ []) → ReturnsFrame (read_loop rest (frame ++ b ∷ []) true))
      → ReturnsFrame (
          after_push
            (push_frame_byte frame b)
            b
            (λ e. (err e, rest))
            (λ f. (ok (some f), rest))
            (λ f. read_loop rest f true))
  unfolding push_frame_byte
  push_IsFrame frame shape more = elim (Bool-cases (leb max_frame_size (length frame))) [
    | inl full ↦ rw (full, ReturnsFrame) tt
    | inr room ↦ rw room (elim (Bool-cases (b == flag)) [
      | inl at ↦
          let same : b ≡ flag = ground arith in
          rw (at, ReturnsFrame)
            (record {
              body = body;
              shape = rw (shape, same);
              inside = inside;
              fits = omega (arith, leb-false _ _ room, length-append frame (b ∷ []));
            })
      | inr other ↦
          rw (other, ReturnsFrame)
            (more (All-append (λ x. x ≢ flag) body (b ∷ []) inside (ground arith, tt)))
    ])
  ]

read_loop-IsFrame :
    (input : List Incoming) (frame body : Bytes)
    → frame ≡ flag ∷ body
    → NoFlag body
    → ReturnsFrame (read_loop input frame true)
unfolding read_loop
read_loop-IsFrame [] frame body e h = tt
read_loop-IsFrame (failed ∷ rest) frame body e h = tt
read_loop-IsFrame (would_block ∷ rest) frame body e h = read_loop-IsFrame rest frame body e h
read_loop-IsFrame (byte b ∷ rest) frame body e h =
    push_IsFrame b rest body h frame e
      (λ inside. read_loop-IsFrame rest (frame ++ b ∷ []) (body ++ b ∷ []) (rw e) inside)

read_loop-IsFrame_outside :
    (input : List Incoming) (frame : Bytes) → ReturnsFrame (read_loop input frame false)
unfolding read_loop
read_loop-IsFrame_outside [] frame = tt
read_loop-IsFrame_outside (failed ∷ rest) frame = tt
read_loop-IsFrame_outside (would_block ∷ rest) frame = read_loop-IsFrame_outside rest frame
read_loop-IsFrame_outside (byte b ∷ rest) frame = elim (Bool-cases (b == flag)) [
  | inl at ↦
      let same : b ≡ flag = ground arith in
      rw (at, ReturnsFrame) (read_loop-IsFrame rest (b ∷ []) [] (rw same) tt)
  | inr other ↦ rw (other, ReturnsFrame) (read_loop-IsFrame_outside rest frame)
]

-- Whatever the stream holds, a frame that `read_frame` returns starts and ends with a flag, has no
-- flag in between, and is at most `max_frame_size` bytes long.
pub read_frame-IsFrame :
    (input rest : List Incoming) (f : Bytes) → read_frame input ≡ (ok (some f), rest) → IsFrame f
unfolding read_frame
read_frame-IsFrame input rest f e =
    subst (λ r. ReturnsFrame r) e (read_loop-IsFrame_outside input [])
