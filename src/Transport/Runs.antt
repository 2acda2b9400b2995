-- ===== src/Transport/Runs.antt =====
-- Runs of `PayloadStream` of src/transport.rs with toy signatures, and the theorems at concrete inputs.
use axsh.Prelude.{
  ℕ, ◌≡◌, refl, Bytes, bytes_eq, bytes_eq→eq, drop, List, [], ◌∷◌, ◌++◌, none, some, Result,
  if◌then◌else◌, ok, true, false, arith,
}
use axsh.Crypto.{Crypto}
use axsh.Crypto.Toy.{toy, toy_laws, seal, zeros}
use axsh.Hdlc.{encode}
use axsh.Hdlc.Reader.{Incoming, Poll, byte, would_block, incoming, pending, ready, new_reader}
use axsh.PacketKey.{PacketSign, PacketVerify, packet_signature_input, new_verify}
use axsh.PacketKey.Session.{Signed, sign_all}
use axsh.Packet.Wire.{deserialize}
use axsh.Packet.Verifier.{Outcome, deserialize-Outcome}
use axsh.Transport.{
  Stream, PayloadStream, IoError, takes, refuses, new_stream, drain_loop, poll_drain_write_buffer,
  poll_flush_payload,
}
use axsh.Transport.Write.{poll_flush_payload-sent}
use axsh.Transport.Calls.{WriteCall, write, keepalive, flush, calls, frames}
use axsh.Transport.Output.{calls-frames}
use axsh.Transport.Delivered.{flatten}
use axsh.Transport.Reads.{reads, reads-IsPrefix}

abbrev signer : PacketSign toy
signer = record { key_pair = tt; sign_counter = 0 }

abbrev peer : PacketVerify
peer = record { last_success = 10; public_key = zeros 32; verify_counter = 0 }

-- A stream that takes 4 bytes, then refuses once, then takes as many as there are.
abbrev slow : Stream
slow = record { incoming = []; accepting = takes 4 ∷ refuses ∷ takes 900 ∷ []; sent = [] }

abbrev some_calls : List WriteCall
some_calls =
    write (5 ∷ []) ∷ flush (λ _. ready (ok tt)) ∷ flush (λ _. ready (ok tt)) ∷ keepalive ∷ []

calls-frames_example :
    (calls toy (new_stream toy slow signer peer) some_calls).1.stream.sent
      ++ drop
          (calls toy (new_stream toy slow signer peer) some_calls).1.write_offset
          (calls toy (new_stream toy slow signer peer) some_calls).1.write_buffer
    ≡ [] ++ frames (sign_all toy signer (calls toy (new_stream toy slow signer peer) some_calls).0)
calls-frames_example = calls-frames toy toy_laws slow signer peer some_calls

-- A frame of which one byte is sent.
abbrev half_sent : PayloadStream toy
half_sent = record {
  stream = record { incoming = []; accepting = takes 1 ∷ takes 9 ∷ []; sent = 0x7e ∷ [] };
  packet_sign = signer;
  peer_packet_verify = peer;
  frame_reader = new_reader;
  read_buffer = [];
  read_offset = 0;
  write_buffer = 0x7e ∷ 1 ∷ 2 ∷ 0x7e ∷ [];
  write_offset = 1;
}

-- The stream below is flushed only when the whole frame has reached it.
abbrev when_sent : Stream → Poll (Result IoError (Unit {0}))
when_sent stream =
    if bytes_eq stream.sent (0x7e ∷ 1 ∷ 2 ∷ 0x7e ∷ []) then ready (ok tt) else pending

poll_flush_payload-sent_example :
    ((poll_flush_payload toy half_sent when_sent).1.stream.sent
      ≡ (0x7e ∷ []) ++ drop 1 (0x7e ∷ 1 ∷ 2 ∷ 0x7e ∷ []))
    × (drop
          (poll_flush_payload toy half_sent when_sent).1.write_offset
          (poll_flush_payload toy half_sent when_sent).1.write_buffer
        ≡ [])
    × (when_sent (poll_flush_payload toy half_sent when_sent).1.stream ≡ ready (ok tt))
poll_flush_payload-sent_example =
    poll_flush_payload-sent toy half_sent when_sent (omega arith)
      (unfold poll_flush_payload poll_drain_write_buffer drain_loop in refl)

abbrev one_payload : Crypto
one_payload = record toy {
  ed25519_verify = λ key m s. bytes_eq m (packet_signature_input 0 (5 ∷ 6 ∷ []));
}

one_payload-Signed :
    (input signature : Bytes)
    → one_payload.ed25519_verify (zeros 32) input signature ≡ true
    → Signed ((5 ∷ 6 ∷ []) ∷ []) input
one_payload-Signed input signature e =
    (0, 5 ∷ 6 ∷ [], refl, bytes_eq→eq input (packet_signature_input 0 (5 ∷ 6 ∷ [])) e)

-- The frame of the payload arrives twice, cut by a pause.
abbrev replayed : Stream
replayed = record {
  incoming =
      byte 1
      ∷ (incoming (encode (5 ∷ (seal 63 (packet_signature_input 0 (5 ∷ 6 ∷ [])) ++ (5 ∷ 6 ∷ []))))
          ++ (would_block
              ∷ incoming (
                  encode (5 ∷ (seal 63 (packet_signature_input 0 (5 ∷ 6 ∷ [])) ++ (5 ∷ 6 ∷ []))))));
  accepting = [];
  sent = [];
}

abbrev clock : List Incoming → ℕ × ℕ
clock rest = (1, 2)

reads-IsPrefix_example :
    (got rest : Bytes) × (s : PayloadStream one_payload) × (reads one_payload clock
        (new_stream one_payload replayed
          (record { key_pair = tt; sign_counter = 0 })
          (new_verify 0 (zeros 32)))
        (1 ∷ 7 ∷ 7 ∷ [])
      ≡ some (got, s))
    × (got ++ rest ≡ flatten ((5 ∷ 6 ∷ []) ∷ []))
reads-IsPrefix_example =
    reads-IsPrefix one_payload clock ((5 ∷ 6 ∷ []) ∷ []) (zeros 32) (omega arith) one_payload-Signed
      replayed (record { key_pair = tt; sign_counter = 0 }) 0 (1 ∷ 7 ∷ 7 ∷ [])

deserialize-Outcome_example :
    Outcome toy 11 12 peer (5 ∷ (seal 63 (packet_signature_input 0 (7 ∷ [])) ++ (7 ∷ []))) (
      deserialize toy 11 12
        (5 ∷ (seal 63 (packet_signature_input 0 (7 ∷ [])) ++ (7 ∷ [])))
        none
        none
        (some peer)
        false)
deserialize-Outcome_example =
    deserialize-Outcome toy 11 12 peer
      (5 ∷ (seal 63 (packet_signature_input 0 (7 ∷ [])) ++ (7 ∷ []))) none none false
