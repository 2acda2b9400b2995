-- ===== src/Hdlc/Reader.antt =====
-- The frame readers of src/hdlc.rs: `read_frame`, `AsyncFrameReader` and `read_frame_async`.
-- A reader is the list of what its reads will return; the end of the list is the end of file.
pub mod Frames
pub mod Resume
use axsh.Prelude.{
  ℕ, zero, suc, Bool, true, false, Bytes, length, List, [], ◌∷◌, ◌++◌, Option, none, some,
}
use axsh.Prelude.{leb, ◌==◌, if◌then◌else◌, Result, ok, err}
use mathlib.Core.Option
use axsh.Hdlc.{flag, max_frame_size}

-- One read of one byte: the byte, an I/O error, or (of a non-blocking reader) `Poll::Pending`.
pub data Incoming : Type 0 where
  byte : ℕ → Incoming
  failed would_block : Incoming

pub data Poll {ℓ} (A : Type ℓ) : Type ℓ where
  pending : Poll A
  ready : A → Poll A

-- `reader_failed` is an error of the underlying stream; the others are made here.
pub data ReadError : Type 0 where
  unexpected_eof invalid_data reader_failed : ReadError

-- `push_frame_byte` returns the new frame.
unfoldable pub push_frame_byte : Bytes → ℕ → Result ReadError Bytes
push_frame_byte frame b =
    if leb max_frame_size (length frame) then err invalid_data else ok (frame ++ b ∷ [])

-- What a reader's loop does with a pushed byte: return the frame at a flag, else go on.
abbrev pub after_push {ℓ} :
    {A : Type ℓ} → Result ReadError Bytes → ℕ → (ReadError → A) → (Bytes → A) → (Bytes → A) → A
after_push (err e) b fail done more = fail e
after_push (ok frame) b fail done more =
    let going_on = more frame in if b == flag then done frame else going_on

-- The loop of `read_frame`, with its variables `frame` and `in_frame`, on a blocking reader.
unfoldable pub read_loop :
    List Incoming → Bytes → Bool → Result ReadError (Option Bytes) × List Incoming
read_loop [] frame false = (ok none, [])
read_loop [] frame true = (err unexpected_eof, [])
read_loop (failed ∷ rest) frame in_frame = (err reader_failed, rest)
read_loop (would_block ∷ rest) frame in_frame = read_loop rest frame in_frame
read_loop (byte b ∷ rest) frame false =
    let started = read_loop rest (b ∷ []) true in
    let skipped = read_loop rest frame false in if b == flag then started else skipped
read_loop (byte b ∷ rest) frame true =
    after_push (push_frame_byte frame b) b (λ e. (err e, rest)) (λ f. (ok (some f), rest))
      (λ f. read_loop rest f true)

unfoldable pub read_frame : List Incoming → Result ReadError (Option Bytes) × List Incoming
read_frame input = read_loop input [] false

pub record AsyncFrameReader : Type 0 where
  pub frame : Bytes
  pub in_frame : Bool

-- `AsyncFrameReader::new`
abbrev pub new_reader : AsyncFrameReader
new_reader = record { frame = []; in_frame = false }

-- The outcome of a poll, the state that it leaves, and what is still to be read.
abbrev pub Polled : Type 0
Polled = Poll (Result ReadError (Option Bytes)) × AsyncFrameReader × List Incoming

-- The loop of `poll_read_frame`; `frame` and `in_frame` are the fields of `self`.
unfoldable pub poll_loop : List Incoming → Bytes → Bool → Polled
poll_loop [] frame false = (ready (ok none), record { frame = frame; in_frame = false }, [])
poll_loop [] frame true =
    (ready (err unexpected_eof), record { frame = frame; in_frame = true }, [])
poll_loop (failed ∷ rest) frame in_frame =
    (ready (err reader_failed), record { frame = frame; in_frame = in_frame }, rest)
poll_loop (would_block ∷ rest) frame in_frame =
    (pending, record { frame = frame; in_frame = in_frame }, rest)
poll_loop (byte b ∷ rest) frame false =
    let started = poll_loop rest (b ∷ []) true in
    let skipped = poll_loop rest frame false in if b == flag then started else skipped
poll_loop (byte b ∷ rest) frame true =
    after_push (push_frame_byte frame b) b
      (λ e. (ready (err e), record { frame = frame; in_frame = true }, rest))
      (λ f. (ready (ok (some f)), record { frame = []; in_frame = false }, rest))
      (λ f. poll_loop rest f true)

unfoldable pub poll_read_frame : AsyncFrameReader → List Incoming → Polled
poll_read_frame r input = poll_loop input r.frame r.in_frame

-- `poll_fn(|cx| frame_reader.poll_read_frame(..)).await`: poll again after each `Pending`, for at
-- most `fuel` polls.
unfoldable pub drive :
    ℕ → AsyncFrameReader → List Incoming → Option (Result ReadError (Option Bytes) × List Incoming)
drive zero r input = none
drive (suc fuel) r input =
    let (p, r', rest) = poll_read_frame r input in
    elim p [ pending ↦ drive fuel r' rest | ready x ↦ some (x, rest) ]

-- `None` of the frame reader is an error for `read_frame_async`.
abbrev pub require_frame : Result ReadError (Option Bytes) → Result ReadError Bytes
require_frame (ok (some frame)) = ok frame
require_frame (ok none) = err unexpected_eof
require_frame (err e) = err e

abbrev pub require_first :
    Result ReadError (Option Bytes) × List Incoming → Result ReadError Bytes × List Incoming
require_first (r, rest) = (require_frame r, rest)

-- Each poll that is not the last consumes a `would_block`, so `length input + 1` polls are enough.
unfoldable pub read_frame_async : List Incoming → Option (Result ReadError Bytes × List Incoming)
read_frame_async input = Option.map require_first (drive (suc (length input)) new_reader input)

-- A reader that returns these bytes, one after the other.
abbrev pub incoming : Bytes → List Incoming
incoming [] = []
incoming (b ∷ bs) = byte b ∷ incoming bs
