-- ===== src/Transport/Reading.antt =====
-- src/transport.rs: the reading half of `PayloadStream`.
-- `clock` gives the two times that `PacketVerify::verify` reads, by what is still to be read then.
use axsh.Prelude.{
  ℕ, zero, suc, ◌+◌, ◌-◌, Bool, true, false, Bytes, length, take, drop, List, [], ◌∷◌, Option, none,
  some, ◌==◌, if◌then◌else◌, Result, ok, err,
}
use Prim.Native.Nat.{min}
use mathlib.Core.Option
use axsh.Crypto.{Crypto}
use axsh.Hdlc
use axsh.Hdlc.{decode}
use axsh.Hdlc.Reader.{Incoming, Poll, pending, ready, ReadError, poll_read_frame}
use axsh.PacketKey.{PacketVerify}
use axsh.Packet.Hello.{PacketError}
use axsh.Packet.Wire.{Packet, payload, deserialize}
use axsh.Transport.{PayloadStream, reading, framing, packet, expected_payload, Polls}

module _ (c : Crypto) (clock : List Incoming → ℕ × ℕ) where
  abbrev pub with_verifier : PayloadStream c → Option PacketVerify → PayloadStream c
  with_verifier s none = s
  with_verifier s (some v) = record s { peer_packet_verify = v }

  -- What a turn of the loop of `poll_fill_read_buffer` does with a packet: `next` is the next turn.
  abbrev pub after_packet :
      (PayloadStream c → Option (Polls c Bool))
      → PayloadStream c
      → Result PacketError Packet
      → Option (Polls c Bool)
  after_packet next s (err e) = some (ready (err (packet e)), s)
  after_packet next s (ok (payload [])) = next s
  after_packet next s (ok (payload (b ∷ bs))) =
      some (ready (ok true), record s { read_buffer = b ∷ bs; read_offset = 0 })
  after_packet next s (ok p) = some (ready (err expected_payload), s)

  abbrev pub after_deserialize :
      (PayloadStream c → Option (Polls c Bool))
      → PayloadStream c
      → Result PacketError Packet × Option PacketVerify
      → Option (Polls c Bool)
  after_deserialize next s (r, v) = after_packet next (with_verifier s v) r

  abbrev pub after_decode :
      (PayloadStream c → Option (Polls c Bool))
      → PayloadStream c
      → Result Hdlc.Error Bytes
      → Option (Polls c Bool)
  after_decode next s (err e) = some (ready (err (framing e)), s)
  after_decode next s (ok wire) =
      let (now, later) = clock s.stream.incoming in
      after_deserialize next s
        (deserialize c now later wire none none (some s.peer_packet_verify) false)

  abbrev pub after_frame :
      (PayloadStream c → Option (Polls c Bool))
      → PayloadStream c
      → Poll (Result ReadError (Option Bytes))
      → Option (Polls c Bool)
  after_frame next s pending = some (pending, s)
  after_frame next s (ready (err e)) = some (ready (err (reading e)), s)
  after_frame next s (ready (ok none)) = some (ready (ok false), s)
  after_frame next s (ready (ok (some frame))) = after_decode next s (decode frame)

  -- The loop of `poll_fill_read_buffer`, for at most `fuel` turns.
  unfoldable pub fill_loop : ℕ → PayloadStream c → Option (Polls c Bool)
  fill_loop zero s = none
  fill_loop (suc fuel) s =
      let (p, reader, rest) = poll_read_frame s.frame_reader s.stream.incoming in
      after_frame (fill_loop fuel)
        (record s { stream = record s.stream { incoming = rest }; frame_reader = reader }) p

  -- A turn that is not the last consumes a frame, so one turn more than there is input is enough.
  unfoldable pub poll_fill_read_buffer : PayloadStream c → Option (Polls c Bool)
  poll_fill_read_buffer s = fill_loop (suc (length s.stream.incoming)) s

  -- The bytes that are put in the caller's buffer, which has `room` left.
  abbrev pub copy_out : PayloadStream c → ℕ → Polls c Bytes
  copy_out s room =
      let to_copy = min (length s.read_buffer - s.read_offset) room in
      let offset = s.read_offset + to_copy in
      (
        ready (ok (take to_copy (drop s.read_offset s.read_buffer))),
        (if offset == length s.read_buffer
            then record s { read_buffer = []; read_offset = 0 }
            else record s { read_offset = offset }),
      )

  abbrev pub after_fill : ℕ → Polls c Bool → Polls c Bytes
  after_fill room (pending, s) = (pending, s)
  after_fill room (ready (err e), s) = (ready (err e), s)
  after_fill room (ready (ok false), s) = (ready (ok []), s)
  after_fill room (ready (ok true), s) = copy_out s room

  unfoldable pub poll_read_payload : PayloadStream c → ℕ → Option (Polls c Bytes)
  poll_read_payload s room =
      if room == 0
      then some (ready (ok []), s)
      else if s.read_offset == length s.read_buffer
      then Option.map (after_fill room) (poll_fill_read_buffer s)
      else some (copy_out s room)
