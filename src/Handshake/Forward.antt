-- ===== src/Handshake/Forward.antt =====
-- Steps of src/client.rs and src/server.rs that succeed, and chains of them.
use axsh.Prelude.{
  ◌≤◌, ◌≡◌, refl, ap, ◌∙◌, Bool, true, Bytes, length, List, [], ◌++◌, arith, Option, some, Result,
  ok, ensure,
}
use axsh.Hdlc.{encode}
use axsh.Hdlc.Reader.{Incoming, incoming, require_first}
use axsh.Hdlc.Reader.Frames.{read_frame-encode}
use axsh.Hdlc.Reader.Resume.{read_frame_async-read_frame}
use axsh.Hdlc.RoundTrip.{length-encode, decode-encode_small}
use axsh.Handshake.{
  HandshakeError, Channel, Handshake, after, ◌>>=◌, ◌>>◌, lift, check, send, receive, decoded,
}

-- A stream whose writes complete.
abbrev pub open_channel : List Incoming → Bytes → Channel
open_channel input sent = record { incoming = input; writes = []; sent = sent }

-- A frame of a payload of at most 32765 bytes.
pub receive-encode :
    (wire : Bytes) (rest : List Incoming) (sent : Bytes)
    → length wire ≤ 32765
    → receive (open_channel (incoming (encode wire) ++ rest) sent)
      ≡ some (ok wire, open_channel rest sent)
unfolding receive
receive-encode wire rest sent small =
    ap (decoded (open_channel (incoming (encode wire) ++ rest) sent)) (
      read_frame_async-read_frame (incoming (encode wire) ++ rest)
      ∙ ap (λ r. some (require_first r))
          (read_frame-encode [] wire rest tt (omega (arith, length-encode wire))))
    ∙ rw (decode-encode_small wire small) refl

module _ {B : Type 0} {out : Option (Result HandshakeError B × Channel)} where
  pub then_step :
      {A : Type 0} {a : A} {between : Channel} (m : Handshake A) (next : A → Handshake B)
      (channel : Channel)
      → m channel ≡ some (ok a, between)
      → next a between ≡ out
      → (m >>= next) channel ≡ out
  then_step m next channel e f = ap (λ o. after o next) e ∙ f

  pub then_lift :
      {A : Type 0} {a : A} (r : Result HandshakeError A) (next : A → Handshake B)
      (channel : Channel)
      → r ≡ ok a
      → next a channel ≡ out
      → (lift r >>= next) channel ≡ out
  then_lift r next channel e f = ap (λ r. after (some (r, channel)) next) e ∙ f

  pub then_check :
      (test : Bool) (x : HandshakeError) (next : Handshake B) (channel : Channel)
      → test ≡ true
      → next channel ≡ out
      → (check test x >> next) channel ≡ out
  then_check test x next channel e f = ap (λ t. after (lift (ensure t x) channel) (λ _. next)) e ∙ f

  pub then_send :
      (bytes : Bytes) (next : Handshake B) (input : List Incoming) (sent : Bytes)
      → next (open_channel input (sent ++ bytes)) ≡ out
      → (send bytes >> next) (open_channel input sent) ≡ out
  then_send bytes next input sent f = f

  pub then_receive :
      (wire : Bytes) (next : Bytes → Handshake B) (rest : List Incoming) (sent : Bytes)
      → length wire ≤ 32765
      → next wire (open_channel rest sent) ≡ out
      → (receive >>= next) (open_channel (incoming (encode wire) ++ rest) sent) ≡ out
  then_receive wire next rest sent small f =
      then_step receive next (open_channel (incoming (encode wire) ++ rest) sent)
        (receive-encode wire rest sent small) f
