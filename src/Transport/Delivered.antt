-- ===== src/Transport/Delivered.antt =====
-- src/transport.rs: what `poll_fill_read_buffer` puts in the read buffer.
use axsh.Prelude.{
  ℕ, zero, suc, ◌+◌, ◌≤◌, ◌<◌, ◌^◌, ◌%◌, ◌≡◌, refl, sym, ap, ◌∙◌, Bool, true, false, inl, inr,
  Bytes, length, drop, drop-get_elem?, List, [], ◌∷◌, ◌++◌, arith, Option, none, some, Result, ok,
  err,
}
use mathlib.Core.Path.{subst}
use axsh.Crypto.{Crypto}
use axsh.Hdlc.{decode}
use axsh.Hdlc
use axsh.Hdlc.Reader.{Incoming, Poll, pending, ready, Polled, poll_loop, poll_read_frame}
use axsh.Hdlc.Reader.Resume.{Shorter, poll_loop-Shorter}
use axsh.PacketKey.{PacketVerify}
use axsh.PacketKey.Verify.{IsAccepted}
use axsh.PacketKey.Session.{Signed, next_payload}
use axsh.Packet.Hello.{PacketError}
use axsh.Packet.Wire.{
  Packet, payload, server_hello, request_server_pubkey, server_pubkey, client_hello,
  server_complete, deserialize,
}
use axsh.Packet.Verifier.{NoPayload, Outcome, deserialize-Outcome}
use axsh.Transport.{PayloadStream, IoError, Polls}
use axsh.Transport.Reading.{after_packet, after_deserialize, after_decode, after_frame, fill_loop}

abbrev pub flatten : List Bytes → Bytes
flatten [] = []
flatten (p ∷ ps) = p ++ flatten ps

module _ (c : Crypto) (clock : List Incoming → ℕ × ℕ) (payloads : List Bytes) (key : Bytes)
    (count : length payloads < 2 ^ 64)
    (unforged : (input signature : Bytes)
      → c.ed25519_verify key input signature ≡ true
      → Signed payloads input) where
  -- The bytes seen, those that wait in the buffer and the payloads to come are what the peer sent.
  pub record Seen (seen waiting : Bytes) (v : PacketVerify) : Type 0 where
    pub same_key : v.public_key ≡ key
    pub counted : v.verify_counter ≤ length payloads
    pub total : seen ++ (waiting ++ flatten (drop v.verify_counter payloads)) ≡ flatten payloads

  abbrev pub IsSeen : Bytes → PayloadStream c → Type 0
  IsSeen seen s = Seen seen (drop s.read_offset s.read_buffer) s.peer_packet_verify

  accepted-Seen :
      (now later : ℕ) (v : PacketVerify) (rest m seen : Bytes)
      → Seen seen [] v
      → IsAccepted c now v rest m
      → Seen seen m
          (record v { verify_counter = (v.verify_counter + 1) % 2 ^ 64; last_success = later })
  accepted-Seen now later v rest m seen i a =
      let (here, below) =
        drop-get_elem? payloads v.verify_counter
          (next_payload c payloads key count unforged now v rest m i.same_key i.counted a) in
      let advance : (v.verify_counter + 1) % 2 ^ 64 ≡ suc v.verify_counter = omega arith in
      record {
        same_key = i.same_key;
        counted = omega arith;
        total =
            ap (λ (n : ℕ). seen ++ (m ++ flatten (drop n payloads))) advance
            ∙ ap (λ (ps : List Bytes). seen ++ flatten ps) (sym here)
            ∙ i.total;
      }

  -- What a poll of the loop ends with.
  abbrev pub Filled : Bytes → Option (Polls c Bool) → Type 0
  Filled seen o =
      (r : Poll (Result IoError Bool)) × (s : PayloadStream c) × (o ≡ some (r, s)) × IsSeen seen s

  NoPayload-Filled :
      (next : PayloadStream c → Option (Polls c Bool)) (s : PayloadStream c)
      (r : Result PacketError Packet) (seen : Bytes)
      → NoPayload r
      → IsSeen seen s
      → Filled seen (after_packet c clock next s r)
  NoPayload-Filled next s (err e) seen n i = (_, s, refl, i)
  NoPayload-Filled next s (ok (server_hello h)) seen n i = (_, s, refl, i)
  NoPayload-Filled next s (ok request_server_pubkey) seen n i = (_, s, refl, i)
  NoPayload-Filled next s (ok (server_pubkey k)) seen n i = (_, s, refl, i)
  NoPayload-Filled next s (ok (client_hello h)) seen n i = (_, s, refl, i)
  NoPayload-Filled next s (ok (server_complete k)) seen n i = (_, s, refl, i)
  NoPayload-Filled next s (ok (payload d)) seen n i = absurd n

  payload-Filled :
      (next : PayloadStream c → Option (Polls c Bool)) (s : PayloadStream c) (m seen : Bytes)
      → drop s.read_offset s.read_buffer ≡ []
      → Seen seen m s.peer_packet_verify
      → (IsSeen seen s → Filled seen (next s))
      → Filled seen (after_packet c clock next s (ok (payload m)))
  payload-Filled next s [] seen d i go =
      go (subst (λ (t : Bytes). Seen seen t s.peer_packet_verify) (sym d) i)
  payload-Filled next s (b ∷ bs) seen d i go = (_, _, refl, i)

  deserialized-Filled :
      (now later : ℕ) (next : PayloadStream c → Option (Polls c Bool)) (s : PayloadStream c)
      (seen wire : Bytes) (x : Result PacketError Packet × Option PacketVerify)
      → Outcome c now later s.peer_packet_verify wire x
      → drop s.read_offset s.read_buffer ≡ []
      → IsSeen seen s
      → ((v : PacketVerify)
          → IsSeen seen (record s { peer_packet_verify = v })
          → Filled seen (next (record s { peer_packet_verify = v })))
      → Filled seen (after_deserialize c clock next s x)
  deserialized-Filled now later next s seen wire x (inr (m, rest, shape, a, e)) d i go =
      let v = record s.peer_packet_verify {
        verify_counter = (s.peer_packet_verify.verify_counter + 1) % 2 ^ 64;
        last_success = later;
      } in
      let empty = subst (λ (t : Bytes). Seen seen t s.peer_packet_verify) d i in
      subst (λ y. Filled seen (after_deserialize c clock next s y)) (sym e)
        (payload-Filled next (record s { peer_packet_verify = v }) m seen d
          (accepted-Seen now later s.peer_packet_verify rest m seen empty a) (go v))
  deserialized-Filled now later next s seen wire (r, none) (inl (p, n)) d i go = cc p
  deserialized-Filled now later next s seen wire (r, some v) (inl (p, n)) d i go =
      let same : s.peer_packet_verify ≡ v = cc p in
      subst (λ w. Filled seen (after_packet c clock next (record s { peer_packet_verify = w }) r))
        same (NoPayload-Filled next s r seen n i)

  decoded-Filled :
      (next : PayloadStream c → Option (Polls c Bool)) (s : PayloadStream c) (seen : Bytes)
      (r : Result Hdlc.Error Bytes)
      → drop s.read_offset s.read_buffer ≡ []
      → IsSeen seen s
      → ((v : PacketVerify)
          → IsSeen seen (record s { peer_packet_verify = v })
          → Filled seen (next (record s { peer_packet_verify = v })))
      → Filled seen (after_decode c clock next s r)
  decoded-Filled next s seen (err e) d i go = (_, s, refl, i)
  decoded-Filled next s seen (ok wire) d i go =
      let (now, later) = clock s.stream.incoming in
      deserialized-Filled now later next s seen wire
        (deserialize c now later wire none none (some s.peer_packet_verify) false)
        (deserialize-Outcome c now later s.peer_packet_verify wire none none false) d i go

  -- With more fuel than there is input, the loop ends, and nothing that was seen changes.
  pub fill_loop-Filled :
      (fuel : ℕ) (s : PayloadStream c) (seen : Bytes)
      → length s.stream.incoming < fuel
      → drop s.read_offset s.read_buffer ≡ []
      → IsSeen seen s
      → Filled seen (fill_loop c clock fuel s)
  unfolding fill_loop poll_read_frame
  fill_loop-Filled zero s seen h d i = absurd (omega arith)
  fill_loop-Filled (suc fuel) s seen h d i =
      let incoming = s.stream.incoming in
      polled (poll_loop incoming s.frame_reader.frame s.frame_reader.in_frame)
        (poll_loop-Shorter incoming s.frame_reader.frame s.frame_reader.in_frame (length incoming)
          (omega arith))
        (λ s' less. fill_loop-Filled fuel s' seen (omega arith))
    where
      polled :
          (p : Polled)
          → Shorter (length s.stream.incoming) p
          → ((s' : PayloadStream c)
              → length s'.stream.incoming < length s.stream.incoming
              → drop s'.read_offset s'.read_buffer ≡ []
              → IsSeen seen s'
              → Filled seen (fill_loop c clock fuel s'))
          → Filled seen (
              after_frame c clock
                (fill_loop c clock fuel)
                (record s { stream = record s.stream { incoming = p.2 }; frame_reader = p.1 })
                p.0)
      polled (pending, reader, rest) less ih = (_, _, refl, i)
      polled (ready (err e), reader, rest) less ih = (_, _, refl, i)
      polled (ready (ok none), reader, rest) less ih = (_, _, refl, i)
      polled (ready (ok (some frame)), reader, rest) less ih =
          decoded-Filled (fill_loop c clock fuel)
            (record s { stream = record s.stream { incoming = rest }; frame_reader = reader }) seen
            (decode frame) d i (λ v j. ih _ less d j)
