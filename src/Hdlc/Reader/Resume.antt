-- ===== src/Hdlc/Reader/Resume.antt =====
-- The non-blocking reader of src/hdlc.rs against the blocking one.
use mathlib.Core.Option
use axsh.Prelude.{
  none, ℕ, zero, suc, ◌<◌, ◌≤◌, ◌≡◌, refl, ap, ◌∙◌, Bool, true, false, Bytes, length, List, [], ◌∷◌,
  Option, some, arith, if_elim, if_elim₂, ◌==◌, Result, ok, err,
}
use axsh.Hdlc.{flag}
use axsh.Hdlc.Reader.{
  Incoming, byte, failed, would_block, pending, ready, ReadError, push_frame_byte, after_push,
  read_loop, read_frame, AsyncFrameReader, new_reader, Polled, poll_loop, poll_read_frame, drive,
  require_first, read_frame_async,
}

-- What a poll leaves for the blocking loop to do: nothing if it is ready, else to go on reading.
abbrev continued : Polled → Result ReadError (Option Bytes) × List Incoming
continued (ready x, r, rest) = (x, rest)
continued (pending, r, rest) = read_loop rest r.frame r.in_frame

poll_loop-continued :
    (input : List Incoming) (frame : Bytes) (in_frame : Bool)
    → continued (poll_loop input frame in_frame) ≡ read_loop input frame in_frame
unfolding poll_loop read_loop
poll_loop-continued [] frame false = refl
poll_loop-continued [] frame true = refl
poll_loop-continued (failed ∷ rest) frame in_frame = refl
poll_loop-continued (would_block ∷ rest) frame in_frame = refl
poll_loop-continued (byte b ∷ rest) frame false =
    if_elim₂ (λ p q. continued p ≡ q) (b == flag) (poll_loop-continued rest (b ∷ []) true)
      (poll_loop-continued rest frame false)
poll_loop-continued (byte b ∷ rest) frame true =
    pushed (push_frame_byte frame b) (λ f. poll_loop-continued rest f true)
  where
    pushed :
        (p : Result ReadError Bytes)
        → ((f : Bytes) → continued (poll_loop rest f true) ≡ read_loop rest f true)
        → continued (
            after_push p b
              (λ e. (ready (err e), record { frame = frame; in_frame = true }, rest))
              (λ f. (ready (ok (some f)), record { frame = []; in_frame = false }, rest))
              (λ f. poll_loop rest f true))
          ≡ after_push p b
              (λ e. (err e, rest))
              (λ f. (ok (some f), rest))
              (λ f. read_loop rest f true)
    pushed (err e) ih = refl
    pushed (ok f) ih = if_elim₂ (λ p q. continued p ≡ q) (b == flag) refl (ih f)

-- A poll that is not ready, or has a frame, has consumed something.
abbrev pub Shorter : ℕ → Polled → Type 0
Shorter n (ready (err e), r, rest) = Unit
Shorter n (ready (ok none), r, rest) = Unit
Shorter n (ready (ok (some frame)), r, rest) = length rest < n
Shorter n (pending, r, rest) = length rest < n

pub poll_loop-Shorter :
    (input : List Incoming) (frame : Bytes) (in_frame : Bool) (n : ℕ)
    → length input ≤ n
    → Shorter n (poll_loop input frame in_frame)
unfolding poll_loop
poll_loop-Shorter [] frame false n h = tt
poll_loop-Shorter [] frame true n h = tt
poll_loop-Shorter (failed ∷ rest) frame in_frame n h = tt
poll_loop-Shorter (would_block ∷ rest) frame in_frame n h = omega arith
poll_loop-Shorter (byte b ∷ rest) frame false n h =
    if_elim (λ p. Shorter n p) (b == flag) (poll_loop-Shorter rest (b ∷ []) true n (omega arith))
      (poll_loop-Shorter rest frame false n (omega arith))
poll_loop-Shorter (byte b ∷ rest) frame true n h =
    pushed (push_frame_byte frame b) (λ f. poll_loop-Shorter rest f true n (omega arith))
  where
    pushed :
        (p : Result ReadError Bytes)
        → ((f : Bytes) → Shorter n (poll_loop rest f true))
        → Shorter n (
            after_push p b
              (λ e. (ready (err e), record { frame = frame; in_frame = true }, rest))
              (λ f. (ready (ok (some f)), record { frame = []; in_frame = false }, rest))
              (λ f. poll_loop rest f true))
    pushed (err e) ih = tt
    pushed (ok f) ih = if_elim (λ p. Shorter n p) (b == flag) (omega arith) (ih f)

-- Polling again after every `Pending`, from any state of the reader, ends with the result and the
-- rest of the input that the blocking loop has from that state.
pub drive-read_loop :
    (fuel : ℕ) (r : AsyncFrameReader) (input : List Incoming)
    → length input < fuel
    → drive fuel r input ≡ some (read_loop input r.frame r.in_frame)
unfolding drive poll_read_frame
drive-read_loop zero r input h = absurd (omega arith)
drive-read_loop (suc fuel) r input h =
    polled (poll_loop input r.frame r.in_frame) (poll_loop-continued input r.frame r.in_frame)
      (poll_loop-Shorter input r.frame r.in_frame (length input) (omega arith))
      (λ r' rest less. drive-read_loop fuel r' rest (omega arith))
  where
    polled :
        (p : Polled)
        → continued p ≡ read_loop input r.frame r.in_frame
        → Shorter (length input) p
        → ((r' : AsyncFrameReader) (rest : List Incoming)
            → length rest < length input
            → drive fuel r' rest ≡ some (read_loop rest r'.frame r'.in_frame))
        → elim p.0 [ pending ↦ drive fuel p.1 p.2 | ready x ↦ some (x, p.2) ]
          ≡ some (read_loop input r.frame r.in_frame)
    polled (ready x, r', rest) e s ih = ap some e
    polled (pending, r', rest) e s ih = ih r' rest s ∙ ap some e

-- `read_frame_async` always ends, with what `read_frame` reads from the same stream, but that the
-- end of file outside a frame is an error of it.
pub read_frame_async-read_frame :
    (input : List Incoming) → read_frame_async input ≡ some (require_first (read_frame input))
unfolding read_frame_async read_frame
read_frame_async-read_frame input =
    ap (Option.map require_first)
      (drive-read_loop (suc (length input)) new_reader input (omega arith))
    ∙ refl
