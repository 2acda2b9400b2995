-- ===== src/Transport/Calls.antt =====
-- src/transport.rs: sequences of the writing operations of a `PayloadStream`.
use axsh.Prelude.{ℕ, Bytes, List, [], ◌∷◌, ◌++◌, ◌==◌, if◌then◌else◌, Result, ok, err}
use axsh.Crypto.{Crypto}
use axsh.Hdlc.{encode}
use axsh.Hdlc.Reader.{Poll, pending, ready}
use axsh.PacketKey.{SignError}
use axsh.Packet.Wire.{type_payload}
use axsh.Transport.{
  IoError, Stream, PayloadStream, poll_write_payload, poll_queue_keepalive, poll_flush_payload,
  poll_shutdown_payload,
}
use axsh.Transport.Write.{produced}

-- A call of one of the writing operations, with the stream's own flush or shutdown.
pub data WriteCall : Type 0 where
  write : Bytes → WriteCall
  keepalive : WriteCall
  flush shutdown : (Stream → Poll (Result IoError (Unit {0}))) → WriteCall

-- The payload that a call has taken, if its result says that it has.
abbrev pub taken : Bytes → Poll (Result IoError ℕ) → List Bytes
taken buf (ready (ok n)) = if n == 0 then [] else buf ∷ []
taken buf (ready (err e)) = []
taken buf pending = []

abbrev pub taken_keepalive : Poll (Result IoError (Unit {0})) → List Bytes
taken_keepalive (ready (ok u)) = [] ∷ []
taken_keepalive (ready (err e)) = []
taken_keepalive pending = []

-- A signed payload as a frame on the wire.
abbrev pub frame : Result SignError Bytes → Bytes
frame (ok signed) = encode (type_payload ∷ signed)
frame (err e) = []

abbrev pub frames : List (Result SignError Bytes) → Bytes
frames [] = []
frames (s ∷ rest) = frame s ++ frames rest

module _ (c : Crypto) where
  -- The payloads that a call has taken, and the stream that it leaves.
  unfoldable pub call : PayloadStream c → WriteCall → List Bytes × PayloadStream c
  call s (write buf) = let (r, s') = poll_write_payload c s buf in (taken buf r, s')
  call s keepalive = let (r, s') = poll_queue_keepalive c s in (taken_keepalive r, s')
  call s (flush flushed) = let (r, s') = poll_flush_payload c s flushed in ([], s')
  call s (shutdown closed) = let (r, s') = poll_shutdown_payload c s closed in ([], s')

  unfoldable pub calls : PayloadStream c → List WriteCall → List Bytes × PayloadStream c
  calls s [] = ([], s)
  calls s (w ∷ rest) =
      let (payloads, s') = call s w in let (later, s'') = calls s' rest in (payloads ++ later, s'')

  -- All that a stream has sent, and has ready to send.
  abbrev pub output : PayloadStream c → Bytes
  output s = produced s.stream.sent s.write_buffer s.write_offset
