-- ===== src/Handshake/Steps.antt =====
-- How runs of the steps of src/client.rs and src/server.rs are put together and taken apart.
use axsh.Prelude.{
  ℕ, ◌≤◌, ◌<◌, ◌≡◌, refl, sym, ap, ◌∙◌, Bool, true, false, Bytes, length, List, [], ◌∷◌, ◌++◌,
  append-nil, Option, none, some, arith, ◌==◌, if_elim, Result, ok, err,
}
use mathlib.Core.Path.{subst}
use axsh.Hdlc.{flag}
use axsh.Hdlc.Reader.{
  Incoming, byte, failed, would_block, ReadError, push_frame_byte, after_push, read_loop,
  read_frame, require_first,
}
use axsh.Hdlc.Reader.Resume.{read_frame_async-read_frame}
use axsh.Handshake.Reads.{Moved, receive-Reads}
use axsh.Handshake.{
  ◌>>◌, check, HandshakeError, Channel, Handshake, after, ◌>>=◌, lift, send, write_with, decoded,
  receive, completes, stops, Writing,
}

-- Where a chain has succeeded, both of its parts have.
abbrev pub Ran : {A B : Type 0} → Handshake A → (A → Handshake B) → Channel → B → Channel → Type 0
Ran {A} m next channel b final =
    (a : A) × (between : Channel) × (m channel ≡ some (ok a, between))
    × (next a between ≡ some (ok b, final))

pub >>=-Ran :
    {A B : Type 0} {b : B} {final : Channel} (m : Handshake A) (next : A → Handshake B)
    (channel : Channel)
    → (m >>= next) channel ≡ some (ok b, final)
    → Ran m next channel b final
>>=-Ran {A} {B} {b} {final} m next channel e = from (m channel) refl e
  where
    from :
        (o : Option (Result HandshakeError A × Channel))
        → m channel ≡ o
        → after o next ≡ some (ok b, final)
        → Ran m next channel b final
    from none p e = cc e
    from (some (err x, between)) p e = cc e
    from (some (ok a, between)) p e = (a, between, p, e)

abbrev sent_of : Option (Result HandshakeError (Unit {0}) × Channel) → Bytes
sent_of none = []
sent_of (some (r, channel)) = channel.sent

abbrev pub incoming_of : {A : Type 0} → Option (Result HandshakeError A × Channel) → List Incoming
incoming_of none = []
incoming_of (some (r, channel)) = channel.incoming

pub lift-ok :
    {A : Type 0} {a : A} {channel final : Channel} (r : Result HandshakeError A)
    → lift r channel ≡ some (ok a, final)
    → (r ≡ ok a) × (channel ≡ final)
lift-ok r e = (cc e, cc e)

-- A step that never hangs.
abbrev pub Ends : {A : Type 0} → Handshake A → Channel → Type 0
Ends {A} m channel = (r : Result HandshakeError A × Channel) × (m channel ≡ some r)

pub >>=-Ends :
    {A B : Type 0} (m : Handshake A) (next : A → Handshake B) (channel : Channel)
    → Ends m channel
    → ((a : A) (between : Channel) → m channel ≡ some (ok a, between) → Ends (next a) between)
    → Ends (m >>= next) channel
>>=-Ends m next channel ((err x, between), p) go = ((err x, between), ap (λ o. after o next) p)
>>=-Ends m next channel ((ok a, between), p) go =
    let (r, q) = go a between p in (r, ap (λ o. after o next) p ∙ q)

-- A frame that was read has consumed something.
abbrev Shorter : ℕ → Result ReadError (Option Bytes) × List Incoming → Type 0
Shorter n (err e, rest) = Unit
Shorter n (ok none, rest) = Unit
Shorter n (ok (some frame), rest) = length rest < n

read_loop-Shorter :
    (input : List Incoming) (frame : Bytes) (in_frame : Bool) (n : ℕ)
    → length input ≤ n
    → Shorter n (read_loop input frame in_frame)
unfolding read_loop
read_loop-Shorter [] frame false n h = tt
read_loop-Shorter [] frame true n h = tt
read_loop-Shorter (failed ∷ rest) frame in_frame n h = tt
read_loop-Shorter (would_block ∷ rest) frame in_frame n h =
    read_loop-Shorter rest frame in_frame n (omega arith)
read_loop-Shorter (byte b ∷ rest) frame false n h =
    if_elim (Shorter n) (b == flag) (read_loop-Shorter rest (b ∷ []) true n (omega arith))
      (read_loop-Shorter rest frame false n (omega arith))
read_loop-Shorter (byte b ∷ rest) frame true n h =
    pushed (push_frame_byte frame b) (λ f. read_loop-Shorter rest f true n (omega arith))
  where
    pushed :
        (p : Result ReadError Bytes)
        → ((f : Bytes) → Shorter n (read_loop rest f true))
        → Shorter n (
            after_push p b
              (λ e. (err e, rest))
              (λ f. (ok (some f), rest))
              (λ f. read_loop rest f true))
    pushed (err e) ih = tt
    pushed (ok f) ih = if_elim (Shorter n) (b == flag) (omega arith) (ih f)

-- `receive` ends, and has consumed something where it has a frame.
pub receive-Ends :
    (channel : Channel)
    → (r : Result HandshakeError Bytes) × (rest : List Incoming) × (receive channel
        ≡ some (r, record channel { incoming = rest }))
      × ((wire : Bytes) → r ≡ ok wire → length rest < length channel.incoming)
unfolding receive
receive-Ends channel =
    let (r, rest, e, less) = was_read (read_frame channel.incoming) (
      unfold read_frame in
      read_loop-Shorter channel.incoming [] false (length channel.incoming) (omega arith)) in
    (r, rest, ap (decoded channel) (read_frame_async-read_frame channel.incoming) ∙ e, less)
  where
    was_read :
        (x : Result ReadError (Option Bytes) × List Incoming)
        → Shorter (length channel.incoming) x
        → (r : Result HandshakeError Bytes) × (rest : List Incoming) × (decoded channel
              (some (require_first x))
            ≡ some (r, record channel { incoming = rest }))
          × ((wire : Bytes) → r ≡ ok wire → length rest < length channel.incoming)
    was_read (err e, rest) less = (_, rest, refl, λ wire e. cc e)
    was_read (ok none, rest) less = (_, rest, refl, λ wire e. cc e)
    was_read (ok (some frame), rest) less = (_, rest, refl, λ wire e. less)

-- `send` ends, and reads nothing.
pub send-Ends :
    (bytes : Bytes) (channel : Channel)
    → (r : Result HandshakeError (Unit {0})) × (final : Channel) × (send bytes channel
        ≡ some (r, final))
      × (final.incoming ≡ channel.incoming)
send-Ends bytes channel = written channel.writes
  where
    written :
        (ws : List Writing)
        → (r : Result HandshakeError (Unit {0})) × (final : Channel) × (◌≡◌
            {A = Option (Result HandshakeError (Unit {0}) × Channel)}
            (some (write_with channel bytes ws))
            (some (r, final)))
          × (final.incoming ≡ channel.incoming)
    written [] = (_, _, refl, refl)
    written (completes ∷ rest) = (_, _, refl, refl)
    written (stops n ∷ rest) = (_, _, refl, refl)

-- A write that succeeded has sent its bytes.
pub send-ok :
    {u : Unit {0}} {final : Channel} (bytes : Bytes) (channel : Channel)
    → send bytes channel ≡ some (ok u, final)
    → (final.sent ≡ channel.sent ++ bytes) × (final.incoming ≡ channel.incoming)
send-ok {u} {final} bytes channel e = written channel.writes e
  where
    written :
        (ws : List Writing)
        → ◌≡◌ {A = Option (Result HandshakeError (Unit {0}) × Channel)}
            (some (write_with channel bytes ws))
            (some (ok u, final))
        → (final.sent ≡ channel.sent ++ bytes) × (final.incoming ≡ channel.incoming)
    written [] e = (ap sent_of (sym e), ap incoming_of (sym e))
    written (completes ∷ rest) e = (ap sent_of (sym e), ap incoming_of (sym e))
    written (stops n ∷ rest) e = cc e

-- A frame that was received has sent nothing.
pub receive-ok :
    {wire : Bytes} {final : Channel} (channel : Channel)
    → receive channel ≡ some (ok wire, final)
    → final.sent ≡ channel.sent
receive-ok channel e = let (r, rest, p, _) = receive-Ends channel in ap sent_after (sym e ∙ p)
  where
    sent_after : Option (Result HandshakeError Bytes × Channel) → Bytes
    sent_after none = []
    sent_after (some (r, d)) = d.sent

-- The two, where the input matters and what was written does not.
pub receive-Shorter :
    {wire : Bytes} {final : Channel} (channel : Channel)
    → receive channel ≡ some (ok wire, final)
    → length final.incoming < length channel.incoming
receive-Shorter {wire} channel e =
    let (r, rest, p, shorter) = receive-Ends channel in
    subst (λ (n : List Incoming). length n < length channel.incoming) (ap incoming_of (sym p ∙ e))
      (shorter wire (cc (p, e)))

-- The same, by what a proof makes of each kind of first step: its outcome and the rest of the chain.
module _ {B P : Type 0} {b : B} {final : Channel} where
  pub from_step :
      {A : Type 0} (m : Handshake A) (next : A → Handshake B) (channel : Channel)
      → (m >>= next) channel ≡ some (ok b, final)
      → ((a : A) (between : Channel)
          → m channel ≡ some (ok a, between)
          → next a between ≡ some (ok b, final)
          → P)
      → P
  from_step m next channel e k =
      let (a, between, p, q) = >>=-Ran m next channel e in k a between p q

  pub from_lift :
      {A : Type 0} (r : Result HandshakeError A) (next : A → Handshake B) (channel : Channel)
      → (lift r >>= next) channel ≡ some (ok b, final)
      → ((a : A) → r ≡ ok a → next a channel ≡ some (ok b, final) → P)
      → P
  from_lift (ok a) next channel e k = k a refl e
  from_lift (err x) next channel e k = cc e

  pub from_check :
      (test : Bool) (x : HandshakeError) (next : Handshake B) (channel : Channel)
      → (check test x >> next) channel ≡ some (ok b, final)
      → (test ≡ true → next channel ≡ some (ok b, final) → P)
      → P
  from_check true x next channel e k = k refl e
  from_check false x next channel e k = cc e

  pub from_send :
      (bytes : Bytes) (next : Handshake B) (channel : Channel)
      → (send bytes >> next) channel ≡ some (ok b, final)
      → ((between : Channel)
          → Moved channel between [] bytes
          → next between ≡ some (ok b, final)
          → P)
      → P
  from_send bytes next channel e k = written channel.writes e
    where
      written :
          (ws : List Writing)
          → after (some (write_with channel bytes ws)) (λ _. next) ≡ some (ok b, final)
          → P
      written [] e = k _ (record { received = refl; sent = refl }) e
      written (completes ∷ rest) e = k _ (record { received = refl; sent = refl }) e
      written (stops n ∷ rest) e = cc e

  pub from_receive :
      (next : Bytes → Handshake B) (channel : Channel)
      → (receive >>= next) channel ≡ some (ok b, final)
      → ((wire : Bytes) (between : Channel)
          → Moved channel between (wire ∷ []) []
          → next wire between ≡ some (ok b, final)
          → P)
      → P
  from_receive next channel e k = from_step receive next channel e (λ wire between p q.
      k wire between
        (record {
          received = receive-Reads channel p;
          sent = receive-ok channel p ∙ sym (append-nil channel.sent);
        })
        q)
