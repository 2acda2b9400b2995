-- ===== src/Handshake/Reads.antt =====
-- What src/client.rs and src/server.rs have read and written, from one state of the stream to another.
use axsh.Prelude.{
  ◌≡◌, refl, sym, ap, ◌∙◌, Bytes, List, [], ◌∷◌, ◌++◌, append_assoc, append-nil, Option, none, some,
  Result, ok, err,
}
use mathlib.Core.Path.{subst}
use axsh.Hdlc
use axsh.Hdlc.{decode}
use axsh.Hdlc.Reader.{Incoming, ReadError, read_frame_async}
use axsh.Handshake.{HandshakeError, Channel, receive, decoded}

-- These wire bytes, in this order, are what the frames decode to that are read one after another
-- between the two inputs.
abbrev pub Reads : List Incoming → List Bytes → List Incoming → Type 0
Reads input [] rest = input ≡ rest
Reads input (wire ∷ wires) rest =
    (frame : Bytes) × (middle : List Incoming) × (read_frame_async input ≡ some (ok frame, middle))
    × (decode frame ≡ ok wire)
    × Reads middle wires rest

pub Reads-append :
    (input middle rest : List Incoming) (first second : List Bytes)
    → Reads input first middle
    → Reads middle second rest
    → Reads input (first ++ second) rest
Reads-append input middle rest [] second r s =
    subst (λ (i : List Incoming). Reads i second rest) (sym r) s
Reads-append input middle rest (w ∷ first) second (frame, between, e, d, r) s =
    (frame, between, e, d, Reads-append between middle rest first second r s)

-- The frames read and the bytes written on the way from one state to the next.
pub record Moved (channel final : Channel) (wires : List Bytes) (bytes : Bytes) : Type 0 where
  pub received : Reads channel.incoming wires final.incoming
  pub sent : final.sent ≡ channel.sent ++ bytes

pub Moved-append :
    {channel between final : Channel} {first second : List Bytes} {bytes more : Bytes}
    → Moved channel between first bytes
    → Moved between final second more
    → Moved channel final (first ++ second) (bytes ++ more)
Moved-append {channel} {between} {final} {first} {second} {bytes} {more} m n = record {
  received =
      Reads-append channel.incoming between.incoming final.incoming first second m.received
        n.received;
  sent = n.sent ∙ ap (λ (t : Bytes). t ++ more) m.sent ∙ append_assoc channel.sent bytes more;
}

pub Moved-refl : (channel : Channel) → Moved channel channel [] []
Moved-refl channel = record { received = refl; sent = sym (append-nil channel.sent) }

pub receive-Reads :
    {wire : Bytes} {final : Channel} (channel : Channel)
    → receive channel ≡ some (ok wire, final)
    → Reads channel.incoming (wire ∷ []) final.incoming
unfolding receive
receive-Reads {wire} {final} channel e = was_read (read_frame_async channel.incoming) refl e
  where
    incoming_of : Option (Result HandshakeError Bytes × Channel) → List Incoming
    incoming_of none = []
    incoming_of (some (r, d)) = d.incoming

    was_decoded :
        (frame : Bytes) (rest : List Incoming) (d : Result Hdlc.Error Bytes)
        → read_frame_async channel.incoming ≡ some (ok frame, rest)
        → decode frame ≡ d
        → decoded channel (some (ok frame, rest)) ≡ some (ok wire, final)
        → Reads channel.incoming (wire ∷ []) final.incoming
    was_decoded frame rest (err x) p q f = cc (rw q at f)
    was_decoded frame rest (ok w) p q f =
        let g = rw q at f in (frame, rest, p, q ∙ cc g, ap incoming_of g)

    was_read :
        (x : Option (Result ReadError Bytes × List Incoming))
        → read_frame_async channel.incoming ≡ x
        → decoded channel x ≡ some (ok wire, final)
        → Reads channel.incoming (wire ∷ []) final.incoming
    was_read none p f = cc f
    was_read (some (err x, rest)) p f = cc f
    was_read (some (ok frame, rest)) p f = was_decoded frame rest (decode frame) p refl f
