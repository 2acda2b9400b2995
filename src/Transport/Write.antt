-- ===== src/Transport/Write.antt =====
-- src/transport.rs: what a `PayloadStream` writes, over any sequence of its operations.
use axsh.Prelude.{
  ltb→lt, ℕ, ◌+◌, ◌-◌, ◌≤◌, ◌<◌, ◌≡◌, drop_all, drop-drop, if_elim, inl, inr, refl, sym, ap, ◌∙◌,
  true, Bool-cases, Bytes, length, take, drop, take-append-drop, List, [], ◌∷◌, ◌++◌, append_assoc,
  append-nil, arith, ltb, ltb-false, ◌==◌, if◌then◌else◌, Result, ok, err,
}
use Prim.Native.Nat.{min}
use axsh.Crypto.{Crypto}
use axsh.Hdlc.Reader.{Poll, pending, ready}
use axsh.Transport.{
  Accepting, takes, refuses, breaks, IoError, write_zero, Stream, PayloadStream, Writing, writing,
  drained, drain_loop, with_writing, and_then, poll_drain_write_buffer, poll_flush_payload,
}

-- The bytes that are sent or wait to be sent.
abbrev pub produced : Bytes → Bytes → ℕ → Bytes
produced sent buffer offset = sent ++ drop offset buffer

-- After a success nothing waits.
abbrev pub IsDone : Poll (Result IoError (Unit {0})) → Writing → Type 0
IsDone (ready (ok _)) w = drop w.write_offset w.write_buffer ≡ []
IsDone (ready (err e)) w = Unit
IsDone pending w = Unit

-- Nothing is lost, sent twice or sent in another order.
pub record Drains (all : Bytes) (r : Poll (Result IoError (Unit {0})) × Writing) : Type 0 where
  pub kept : produced r.1.sent r.1.write_buffer r.1.write_offset ≡ all
  pub fits : r.1.write_offset ≤ length r.1.write_buffer
  pub done : IsDone r.0 r.1

Drains-drained :
    (w : Writing)
    → w.write_offset ≤ length w.write_buffer
    → length w.write_buffer ≤ w.write_offset
    → Drains (produced w.sent w.write_buffer w.write_offset) (drained w)
Drains-drained w h g =
    let nothing : drop w.write_offset w.write_buffer ≡ [] =
      drop_all w.write_offset w.write_buffer g in
    let whole : (w.write_offset == length w.write_buffer) ≡ true = ground arith in
    rw whole (record {
      kept = ap (λ (t : Bytes). w.sent ++ t) (sym nothing);
      fits = omega arith;
      done = refl;
    })

-- What the `while` does: write on, or end.
Drains-while :
    (w : Writing) (r : Poll (Result IoError (Unit {0})) × Writing)
    → w.write_offset ≤ length w.write_buffer
    → (w.write_offset < length w.write_buffer
        → Drains (produced w.sent w.write_buffer w.write_offset) r)
    → Drains
        (produced w.sent w.write_buffer w.write_offset)
        (if ltb w.write_offset (length w.write_buffer) then r else drained w)
Drains-while w r h turn = elim (Bool-cases (ltb w.write_offset (length w.write_buffer))) [
  | inl more ↦ rw more (turn (ltb→lt _ _ more))
  | inr over ↦ rw over (Drains-drained w h (ltb-false _ _ over))
]

stuck :
    (p : Poll (Result IoError (Unit {0}))) (w : Writing)
    → IsDone p w
    → w.write_offset ≤ length w.write_buffer
    → Drains (produced w.sent w.write_buffer w.write_offset) (p, w)
stuck p w d h = record { kept = refl; fits = h; done = d }

-- A write moves the bytes that it takes from the buffer to the stream.
write_some :
    (n : ℕ) (sent buffer : Bytes) (offset : ℕ)
    → produced (sent ++ take n (drop offset buffer)) buffer (offset + n)
      ≡ produced sent buffer offset
write_some n sent buffer offset =
    append_assoc sent (take n (drop offset buffer)) (drop (offset + n) buffer)
    ∙ ap (λ (t : Bytes). sent ++ (take n (drop offset buffer) ++ t))
        (sym (drop-drop offset n buffer))
    ∙ ap (λ (t : Bytes). sent ++ t) (take-append-drop n (drop offset buffer))

pub drain_loop-Drains :
    (accepting : List Accepting) (sent buffer : Bytes) (offset : ℕ)
    → offset ≤ length buffer
    → Drains (produced sent buffer offset) (drain_loop accepting sent buffer offset)
unfolding drain_loop
drain_loop-Drains [] sent buffer offset h =
    Drains-while (writing [] sent buffer offset) _ h (λ _. stuck pending _ tt h)
drain_loop-Drains (refuses ∷ rest) sent buffer offset h =
    Drains-while (writing (refuses ∷ rest) sent buffer offset) _ h
      (λ _. stuck pending (writing rest sent buffer offset) tt h)
drain_loop-Drains (breaks ∷ rest) sent buffer offset h =
    Drains-while (writing (breaks ∷ rest) sent buffer offset) _ h
      (λ _. stuck (ready _) (writing rest sent buffer offset) tt h)
drain_loop-Drains (takes n ∷ rest) sent buffer offset h =
    Drains-while (writing (takes n ∷ rest) sent buffer offset) _ h (
      turn (
        drain_loop-Drains rest (sent ++ take written (drop offset buffer)) buffer (offset + written)
          (omega arith)))
  where
    written : ℕ
    written = min n (length buffer - offset)

    turn :
        Drains
          (produced (sent ++ take written (drop offset buffer)) buffer (offset + written))
          (drain_loop rest (sent ++ take written (drop offset buffer)) buffer (offset + written))
        → offset < length buffer
        → Drains (produced sent buffer offset) (
            if written == 0
            then (ready (err write_zero), writing rest sent buffer offset)
            else drain_loop rest
                (sent ++ take written (drop offset buffer))
                buffer
                (offset + written))
    turn later less =
        if_elim (Drains (produced sent buffer offset)) (written == 0)
          (stuck (ready _) (writing rest sent buffer offset) tt h)
          (record {
            kept = later.kept ∙ write_some written sent buffer offset;
            fits = later.fits;
            done = later.done;
          })

module _ (c : Crypto) where
  -- A flush that succeeds has sent all that waited, in order, and has left nothing in the buffer, and
  -- the stream below was flushed, with success, as it is after all of that was sent.
  pub poll_flush_payload-sent :
      (s : PayloadStream c) (flushed : Stream → Poll (Result IoError (Unit {0})))
      → s.write_offset ≤ length s.write_buffer
      → (poll_flush_payload c s flushed).0 ≡ ready (ok tt)
      → ((poll_flush_payload c s flushed).1.stream.sent
          ≡ s.stream.sent ++ drop s.write_offset s.write_buffer)
        × (drop
              (poll_flush_payload c s flushed).1.write_offset
              (poll_flush_payload c s flushed).1.write_buffer
            ≡ [])
        × (flushed (poll_flush_payload c s flushed).1.stream ≡ ready (ok tt))
  unfolding poll_flush_payload poll_drain_write_buffer
  poll_flush_payload-sent s flushed h e =
      after (drain_loop s.stream.accepting s.stream.sent s.write_buffer s.write_offset).0 _
        (drain_loop-Drains s.stream.accepting s.stream.sent s.write_buffer s.write_offset h) e
    where
      after :
          (r : Poll (Result IoError (Unit {0}))) (w : Writing)
          → Drains (produced s.stream.sent s.write_buffer s.write_offset) (r, w)
          → (and_then c (r, with_writing c s w) (λ s. (flushed s.stream, s))).0 ≡ ready (ok tt)
          → ((and_then c (r, with_writing c s w) (λ s. (flushed s.stream, s))).1.stream.sent
              ≡ produced s.stream.sent s.write_buffer s.write_offset)
            × (drop
                  (and_then c (r, with_writing c s w) (λ s. (flushed s.stream, s))).1.write_offset
                  (and_then c (r, with_writing c s w) (λ s. (flushed s.stream, s))).1.write_buffer
                ≡ [])
            × (flushed (and_then c (r, with_writing c s w) (λ s. (flushed s.stream, s))).1.stream
                ≡ ready (ok tt))
      after pending w d e = cc e
      after (ready (err x)) w d e = cc e
      after (ready (ok u)) w d e = (
        sym (append-nil w.sent) ∙ ap (λ (t : Bytes). w.sent ++ t) (sym d.done) ∙ d.kept,
        d.done,
        e,
      )
