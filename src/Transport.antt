-- ===== src/Transport.antt =====
-- src/transport.rs: `PayloadStream`, signed payloads over a byte stream.
-- The stream is what its reads and writes will return, and the bytes written so far.
pub mod Reading
pub mod Delivered
pub mod Reads
pub mod Write
mod Runs
pub mod Calls
pub mod Output
use axsh.Prelude.{
  ℕ, zero, suc, ◌+◌, ◌-◌, Bytes, length, take, drop, is_empty, List, [], ◌∷◌, ◌++◌, Option, none,
  some, ltb, ◌==◌, if◌then◌else◌, Result, ok, err,
}
use Prim.Native.Nat.{min}
use axsh.Crypto.{Crypto}
use axsh.Hdlc
use axsh.Hdlc.{encode}
use axsh.Hdlc.Reader.{
  Incoming, Poll, pending, ready, ReadError, AsyncFrameReader, new_reader, poll_read_frame,
}
use axsh.PacketKey.{PacketSign, PacketVerify}
use axsh.Packet.Hello.{PacketError}
use axsh.Packet.Wire.{Packet, payload, serialize_packet_signed, deserialize}

-- What a `poll_write` returns: it takes at most so many bytes, it is not ready, or it fails. A list
-- of these that has ended stands for a stream that takes nothing more.
pub data Accepting : Type 0 where
  takes : ℕ → Accepting
  refuses breaks : Accepting

-- `std::io::Error`, with where it comes from.
pub data IoError : Type 0 where
  write_failed write_zero expected_payload : IoError
  reading : ReadError → IoError
  framing : Hdlc.Error → IoError
  packet : PacketError → IoError

pub record Stream : Type 0 where
  pub incoming : List Incoming
  pub accepting : List Accepting
  pub sent : Bytes

pub record PayloadStream (c : Crypto) : Type 0 where
  pub stream : Stream
  pub packet_sign : PacketSign c
  pub peer_packet_verify : PacketVerify
  pub frame_reader : AsyncFrameReader
  pub read_buffer : Bytes
  pub read_offset : ℕ
  pub write_buffer : Bytes
  pub write_offset : ℕ

-- What `poll_drain_write_buffer` changes.
pub record Writing : Type 0 where
  pub accepting : List Accepting
  pub sent : Bytes
  pub write_buffer : Bytes
  pub write_offset : ℕ

abbrev pub writing : List Accepting → Bytes → Bytes → ℕ → Writing
writing accepting sent write_buffer write_offset = record {
  accepting = accepting;
  sent = sent;
  write_buffer = write_buffer;
  write_offset = write_offset;
}

-- The end of `poll_drain_write_buffer`.
abbrev pub drained : Writing → Poll (Result IoError (Unit {0})) × Writing
drained w = (
  ready (ok tt),
  (if w.write_offset == length w.write_buffer
      then record w { write_buffer = []; write_offset = 0 }
      else w),
)

-- The loop of `poll_drain_write_buffer`, behind its test.
unfoldable pub drain_loop :
    List Accepting → Bytes → Bytes → ℕ → Poll (Result IoError (Unit {0})) × Writing
drain_loop [] sent buffer offset =
    if ltb offset (length buffer)
    then (pending, writing [] sent buffer offset)
    else drained (writing [] sent buffer offset)
drain_loop (refuses ∷ rest) sent buffer offset =
    if ltb offset (length buffer)
    then (pending, writing rest sent buffer offset)
    else drained (writing (refuses ∷ rest) sent buffer offset)
drain_loop (breaks ∷ rest) sent buffer offset =
    if ltb offset (length buffer)
    then (ready (err write_failed), writing rest sent buffer offset)
    else drained (writing (breaks ∷ rest) sent buffer offset)
drain_loop (takes n ∷ rest) sent buffer offset =
    let written = min n (length buffer - offset) in
    let more =
      drain_loop rest (sent ++ take written (drop offset buffer)) buffer (offset + written) in
    if ltb offset (length buffer)
    then if written == 0 then (ready (err write_zero), writing rest sent buffer offset) else more
    else drained (writing (takes n ∷ rest) sent buffer offset)

module _ (c : Crypto) where
  -- `PayloadStream::new`
  unfoldable pub new_stream : Stream → PacketSign c → PacketVerify → PayloadStream c
  new_stream stream packet_sign peer_packet_verify = record {
    stream = stream;
    packet_sign = packet_sign;
    peer_packet_verify = peer_packet_verify;
    frame_reader = new_reader;
    read_buffer = [];
    read_offset = 0;
    write_buffer = [];
    write_offset = 0;
  }

  abbrev pub Polls : Type 0 → Type 0
  Polls A = Poll (Result IoError A) × PayloadStream c

  abbrev pub with_writing : PayloadStream c → Writing → PayloadStream c
  with_writing s w = record s {
    stream = record s.stream { accepting = w.accepting; sent = w.sent };
    write_buffer = w.write_buffer;
    write_offset = w.write_offset;
  }

  unfoldable pub poll_drain_write_buffer : PayloadStream c → Polls (Unit {0})
  poll_drain_write_buffer s =
      let (r, w) = drain_loop s.stream.accepting s.stream.sent s.write_buffer s.write_offset in
      (r, with_writing s w)

  -- `ready!(self.poll_drain_write_buffer(cx))?`, and what follows it.
  abbrev pub and_then : {A : Type 0} → Polls (Unit {0}) → (PayloadStream c → Polls A) → Polls A
  and_then (pending, s) next = (pending, s)
  and_then (ready (err e), s) next = (ready (err e), s)
  and_then (ready (ok _), s) next = next s

  -- `Packet::Payload(..).serialize_packet_signed(..)?` becomes the write buffer; `a` is what the
  -- caller returns then.
  abbrev pub queue_signed :
      {A : Type 0} → A → PayloadStream c → Result PacketError Bytes × PacketSign c → Polls A
  queue_signed a s (ok wire, signer) = (
    ready (ok a),
    record s { packet_sign = signer; write_buffer = encode wire; write_offset = 0 },
  )
  queue_signed a s (err e, signer) = (ready (err (packet e)), record s { packet_sign = signer })

  unfoldable pub queue_payload : {A : Type 0} → A → Bytes → PayloadStream c → Polls A
  queue_payload a data' s =
      queue_signed a s (serialize_packet_signed c (payload data') s.packet_sign)

  unfoldable pub poll_write_payload : PayloadStream c → Bytes → Polls ℕ
  poll_write_payload s buf =
      and_then (poll_drain_write_buffer s)
        (λ s. if is_empty buf then (ready (ok 0), s) else queue_payload (length buf) buf s)

  unfoldable pub poll_queue_keepalive : PayloadStream c → Polls (Unit {0})
  poll_queue_keepalive s = and_then (poll_drain_write_buffer s) (λ s. queue_payload tt [] s)

  -- `flushed` is the stream's own `poll_flush`, or its `poll_shutdown`: what it returns for the stream
  -- as it is when it is called.
  unfoldable pub poll_flush_payload :
      PayloadStream c → (Stream → Poll (Result IoError (Unit {0}))) → Polls (Unit {0})
  poll_flush_payload s flushed = and_then (poll_drain_write_buffer s) (λ s. (flushed s.stream, s))

  unfoldable pub poll_shutdown_payload :
      PayloadStream c → (Stream → Poll (Result IoError (Unit {0}))) → Polls (Unit {0})
  poll_shutdown_payload s closed = and_then (poll_drain_write_buffer s) (λ s. (closed s.stream, s))
