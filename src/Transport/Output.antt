-- ===== src/Transport/Output.antt =====
-- src/transport.rs: the frames that a `PayloadStream` sends, over any sequence of its operations.
use axsh.Transport.Calls.{
  WriteCall, write, keepalive, flush, shutdown, taken, taken_keepalive, frame, frames, call, calls,
  output,
}
use axsh.Prelude.{
  ◌+◌, ◌%◌, ◌^◌, ◌⊎◌, ◌≤◌, ◌≡◌, refl, sym, ap, ◌∙◌, false, Bool-cases, inl, inr, Bytes, length,
  drop, is_empty, List, [], ◌∷◌, ◌++◌, append_assoc, append-nil, arith, ◌==◌, if◌then◌else◌, Result,
  ok, err,
}
use axsh.Crypto.{Crypto, CryptoLaws}
use axsh.Hdlc.Reader.{Poll, pending, ready}
use axsh.PacketKey.{PacketSign, SignError, PacketVerify, sign, packet_signature_input}
use axsh.PacketKey.Session.{sign_all}
use axsh.PacketKey.Delivery.{sign_lem}
use axsh.Packet.Wire.{payload, type_payload, serialize_packet_signed}
use axsh.Transport.{
  Writing, IoError, Stream, PayloadStream, drain_loop, new_stream, with_writing, and_then,
  poll_drain_write_buffer, queue_signed, queue_payload, poll_write_payload, poll_queue_keepalive,
  poll_flush_payload, poll_shutdown_payload,
}
use axsh.Transport.Write.{Drains, drain_loop-Drains}

not_empty : (bs : Bytes) → is_empty bs ≡ false → (length bs == 0) ≡ false
not_empty [] h = cc h
not_empty (b ∷ bs) h = ground arith

module _ (c : Crypto) (laws : CryptoLaws c) where
  -- The offset is in the buffer.
  abbrev Fits : PayloadStream c → Type 0
  Fits s = s.write_offset ≤ length s.write_buffer

  -- A call that took these payloads has appended their frames, signed with the counters that follow.
  record Appends (s : PayloadStream c) (r : List Bytes × PayloadStream c) : Type 0 where
    fits : Fits r.1
    shape :
        ((r.0 ≡ []) × (output c r.1 ≡ output c s) × (r.1.packet_sign ≡ s.packet_sign))
        ⊎ ((p : Bytes) × (r.0 ≡ p ∷ [])
            × (output c r.1 ≡ output c s ++ frame (sign c s.packet_sign p).0)
            × (r.1.packet_sign ≡ (sign c s.packet_sign p).1))

  -- Behind a complete drain, and in each case of an incomplete one.
  and_then-Appends :
      {A : Type 0} (s : PayloadStream c)
      (next : PayloadStream c → Poll (Result IoError A) × PayloadStream c)
      (took : Poll (Result IoError A) → List Bytes)
      → Fits s
      → took pending ≡ []
      → ((e : IoError) → took (ready (err e)) ≡ [])
      → ((s' : PayloadStream c)
          → Fits s'
          → drop s'.write_offset s'.write_buffer ≡ []
          → Appends s' (took (next s').0, (next s').1))
      → Appends s (
        took (and_then c (poll_drain_write_buffer c s) next).0,
        (and_then c (poll_drain_write_buffer c s) next).1,
      )
  unfolding poll_drain_write_buffer
  and_then-Appends s next took h no_pending no_error further =
      after (drain_loop s.stream.accepting s.stream.sent s.write_buffer s.write_offset).0 _
        (drain_loop-Drains s.stream.accepting s.stream.sent s.write_buffer s.write_offset h)
    where
      after :
          (r : Poll (Result IoError (Unit {0}))) (w : Writing)
          → Drains (output c s) (r, w)
          → Appends s (
            took (and_then c (r, with_writing c s w) next).0,
            (and_then c (r, with_writing c s w) next).1,
          )
      after pending w d = record { fits = d.fits; shape = inl (no_pending, d.kept, refl) }
      after (ready (err e)) w d = record { fits = d.fits; shape = inl (no_error e, d.kept, refl) }
      after (ready (ok u)) w d =
          let a = further (with_writing c s w) d.fits d.done in
          record {
            fits = a.fits;
            shape = elim a.shape [
              | inl (n, o, g) ↦ inl (n, o ∙ d.kept, g)
              | inr (p, n, o, g) ↦
                  inr
                    (p, n, o ∙ ap (λ (t : Bytes). t ++ frame (sign c s.packet_sign p).0) d.kept, g)
            ];
          }

  serialize_lem :
      (k : PacketSign c) (p : Bytes)
      → serialize_packet_signed c (payload p) k ≡ (
        ok (
            type_payload
            ∷ (c.ed25519_sign k.key_pair (packet_signature_input k.sign_counter p) ++ p)),
        record k { sign_counter = (k.sign_counter + 1) % 2 ^ 64 },
      )
  unfolding serialize_packet_signed
  serialize_lem k p = rw (sign_lem c laws k p)

  queue_payload_lem :
      {A : Type 0} (a : A) (p : Bytes) (s : PayloadStream c)
      → queue_payload c a p s ≡ (
        ready (ok a),
        record s {
          packet_sign = (sign c s.packet_sign p).1;
          write_buffer = frame (sign c s.packet_sign p).0;
          write_offset = 0;
        },
      )
  unfolding queue_payload
  queue_payload_lem a p s =
      ap (queue_signed c a s) (serialize_lem s.packet_sign p)
      ∙ sym (
          ap
            (λ (r : Result SignError Bytes × PacketSign c). (
              ready (ok a),
              record s { packet_sign = r.1; write_buffer = frame r.0; write_offset = 0 },
            ))
            (sign_lem c laws s.packet_sign p))

  -- A payload queued in an empty buffer.
  queue_payload-Appends :
      {A : Type 0} (a : A) (p : Bytes) (s : PayloadStream c) (ps : List Bytes)
      → ps ≡ p ∷ []
      → drop s.write_offset s.write_buffer ≡ []
      → Appends s (ps, (queue_payload c a p s).1)
  queue_payload-Appends a p s ps e h = rw (queue_payload_lem a p s) (record {
    fits = omega arith;
    shape = inr (
      p,
      e,
      ap (λ (t : Bytes). t ++ frame (sign c s.packet_sign p).0)
          (sym (ap (λ (t : Bytes). s.stream.sent ++ t) h ∙ append-nil s.stream.sent)),
      refl,
    );
  })

  call-Appends : (s : PayloadStream c) (w : WriteCall) → Fits s → Appends s (call c s w)
  unfolding call poll_write_payload poll_queue_keepalive poll_flush_payload poll_shutdown_payload
  call-Appends s (write buf) h =
      and_then-Appends s
        (λ s. if is_empty buf then (ready (ok 0), s) else queue_payload c (length buf) buf s)
        (taken buf) h refl (λ e. refl)
        (λ s' f d. elim (Bool-cases (is_empty buf)) [
          | inl nothing ↦ rw nothing (record { fits = f; shape = inl (refl, refl, refl) })
          | inr something ↦ rw something (
              queue_payload-Appends (length buf) buf s' _
                (ap (λ r. taken buf r.0) (queue_payload_lem (length buf) buf s')
                  ∙ rw (not_empty buf something))
                d)
        ])
  call-Appends s keepalive h =
      and_then-Appends s (queue_payload c tt []) taken_keepalive h refl (λ e. refl)
        (λ s' f d.
          queue_payload-Appends tt [] s' _
            (ap (λ r. taken_keepalive r.0) (queue_payload_lem tt [] s')) d)
  call-Appends s (flush flushed) h =
      and_then-Appends s (λ s. (flushed s.stream, s)) (λ r. []) h refl (λ e. refl)
        (λ s' f d. record { fits = f; shape = inl (refl, refl, refl) })
  call-Appends s (shutdown closed) h =
      and_then-Appends s (λ s. (closed s.stream, s)) (λ r. []) h refl (λ e. refl)
        (λ s' f d. record { fits = f; shape = inl (refl, refl, refl) })

  calls-output :
      (ws : List WriteCall) (s : PayloadStream c)
      → Fits s
      → output c (calls c s ws).1 ≡ output c s ++ frames (sign_all c s.packet_sign (calls c s ws).0)
  unfolding calls sign_all
  calls-output [] s h = sym (append-nil (output c s))
  calls-output (w ∷ rest) s h =
      let a = call-Appends s w h in
      let s' = (call c s w).1 in
      let later = calls-output rest s' a.fits in
      elim a.shape [
        | inl (n, o, k) ↦
            later
            ∙ ap (λ (r : PacketSign c × Bytes). r.1 ++ frames (sign_all c r.0 (calls c s' rest).0))
                (pair k o)
            ∙ ap
                (λ (ps : List Bytes).
                  output c s ++ frames (sign_all c s.packet_sign (ps ++ (calls c s' rest).0)))
                (sym n)
        | inr (p, n, o, k) ↦
            later
            ∙ ap (λ (r : PacketSign c × Bytes). r.1 ++ frames (sign_all c r.0 (calls c s' rest).0))
                (pair k o)
            ∙ append_assoc (output c s) (frame (sign c s.packet_sign p).0) _
            ∙ ap
                (λ (ps : List Bytes).
                  output c s ++ frames (sign_all c s.packet_sign (ps ++ (calls c s' rest).0)))
                (sym n)
      ]
    where
      pair :
          {k k' : PacketSign c} {o o' : Bytes}
          → k ≡ k'
          → o ≡ o'
          → ◌≡◌ {A = PacketSign c × Bytes} (k, o) (k', o')
      pair p q = cc (p, q)

  -- Whatever a stream's writes, keepalives, flushes and shutdowns return, and however the writes to the
  -- stream below are cut, delayed or broken, the bytes that were sent and those that wait in the buffer
  -- are together the frames of the payloads that were taken, in order, each once, signed with the
  -- counters from the signer's first one on.
  pub calls-frames :
      (stream : Stream) (k : PacketSign c) (v : PacketVerify) (ws : List WriteCall)
      → let r = calls c (new_stream c stream k v) ws in
        r.1.stream.sent ++ drop r.1.write_offset r.1.write_buffer
        ≡ stream.sent ++ frames (sign_all c k r.0)
  unfolding new_stream
  calls-frames stream k v ws =
      calls-output ws (new_stream c stream k v) (omega arith)
      ∙ ap (λ (t : Bytes). t ++ frames (sign_all c k (calls c (new_stream c stream k v) ws).0))
          (append-nil stream.sent)
