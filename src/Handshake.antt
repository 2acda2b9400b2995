-- ===== src/Handshake.antt =====
-- What src/client.rs and src/server.rs share: a stream during the handshake, and the steps of an
-- `async fn` that returns `std::io::Result`.
pub mod Reads
pub mod Steps
pub mod Total
pub mod Forward
use axsh.Prelude.{
  Bytes, take, List, [], ◌∷◌, ◌++◌, Option, none, some, ℕ, Bool, Result, ok, err, ensure,
}
use axsh.Hdlc
use axsh.Hdlc.{decode}
use axsh.Hdlc.Reader.{Incoming, ReadError, read_frame_async}
use axsh.ConnKey.{KeyError}
use axsh.Packet.Hello.{PacketError}

-- The errors of the two handshakes. `no_key_pair` and `no_random` are failures of the libraries, and
-- `refused` is one that a callback of the application returns; `unreachable` is the `unreachable!`.
pub data HandshakeError : Type 0 where
  reading : ReadError → HandshakeError
  framing : Hdlc.Error → HandshakeError
  packet : PacketError → HandshakeError
  key : KeyError → HandshakeError
  not_authorized write_failed unreachable : HandshakeError
  unexpected_type : ℕ → HandshakeError
  unexpected_packet digest_mismatch bad_transcript : HandshakeError
  no_key_pair no_random refused : HandshakeError

-- A `write_all` with its `flush`: it completes, or it stops after so many bytes.
pub data Writing : Type 0 where
  completes : Writing
  stops : ℕ → Writing

-- The stream: what it will deliver, how each write ends (they complete when the list has ended), and
-- what was written.
pub record Channel : Type 0 where
  pub incoming : List Incoming
  pub writes : List Writing
  pub sent : Bytes

abbrev pub Handshake : Type 0 → Type 0
Handshake A = Channel → Option (Result HandshakeError A × Channel)

-- `.await?` and what follows it.
abbrev pub after :
    {A B : Type 0}
    → Option (Result HandshakeError A × Channel)
    → (A → Handshake B)
    → Option (Result HandshakeError B × Channel)
after none next = none
after (some (err e, channel)) next = some (err e, channel)
after (some (ok a, channel)) next = next a channel

infixl 5 ◌>>=◌ ◌>>◌
abbrev pub ◌>>=◌ : {A B : Type 0} → Handshake A → (A → Handshake B) → Handshake B
(m >>= next) channel = after (m channel) next

abbrev pub ◌>>◌ : {A B : Type 0} → Handshake A → Handshake B → Handshake B
(m >> next) channel = after (m channel) (λ _. next)

-- A step that leaves the stream alone.
abbrev pub lift : {A : Type 0} → Result HandshakeError A → Handshake A
lift r channel = some (r, channel)

abbrev pub check : Bool → HandshakeError → Handshake (Unit {0})
check test e = lift (ensure test e)

-- `stream.write_all(..).await?; stream.flush().await?`
abbrev pub write_with : Channel → Bytes → List Writing → Result HandshakeError (Unit {0}) × Channel
write_with channel bytes [] = (ok tt, record channel { sent = channel.sent ++ bytes })
write_with channel bytes (completes ∷ rest) =
    (ok tt, record channel { writes = rest; sent = channel.sent ++ bytes })
write_with channel bytes (stops n ∷ rest) =
    (err write_failed, record channel { writes = rest; sent = channel.sent ++ take n bytes })

abbrev pub send : Bytes → Handshake (Unit {0})
send bytes channel = some (write_with channel bytes channel.writes)

-- `hdlc::decode(&frame)`, of the frame that `read_frame_async` returned.
abbrev pub decoded :
    Channel
    → Option (Result ReadError Bytes × List Incoming)
    → Option (Result HandshakeError Bytes × Channel)
decoded channel none = none
decoded channel (some (err e, rest)) = some (err (reading e), record channel { incoming = rest })
decoded channel (some (ok frame, rest)) =
    some (framed (decode frame), record channel { incoming = rest })
  where
    framed : Result Hdlc.Error Bytes → Result HandshakeError Bytes
    framed (err e) = err (framing e)
    framed (ok wire) = ok wire

-- `hdlc::read_frame_async(&mut stream)` and `hdlc::decode`
unfoldable pub receive : Handshake Bytes
receive channel = decoded channel (read_frame_async channel.incoming)

abbrev pub return : {A : Type 0} → A → Handshake A
return a = lift (ok a)
