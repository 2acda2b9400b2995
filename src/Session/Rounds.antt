-- ===== src/Session/Rounds.antt =====
-- src/client.rs and src/server.rs: two sides that take turns, each with only what the other has sent.
use axsh.Prelude.{
  List, ℕ, zero, suc, ◌≡◌, refl, sym, ap, ◌∙◌, Bool, true, false, Bytes, [], ◌++◌, append-nil,
  Option, none, some, Result,
}
use axsh.Hdlc.Reader.{Incoming, incoming}
use axsh.Handshake.{HandshakeError, Channel, Handshake}
use axsh.Handshake.Forward.{open_channel}

-- What was written, whether or not the side has come to an end.
abbrev pub sent_of : {A : Type 0} → Option (Result HandshakeError A × Channel) → Bytes
sent_of none = []
sent_of (some (r, channel)) = channel.sent

-- What a side has written when these bytes have reached it and no more. A side that would have to wait
-- for more of them writes nothing behind that point, since the end of the input is an error there.
abbrev pub sent_by : {A : Type 0} → Handshake A → Bytes → Bytes
sent_by side bytes = sent_of (side (open_channel (incoming bytes) []))

-- A side on an input that is put together in another way.
pub on :
    {A : Type 0} {out : Option (Result HandshakeError A × Channel)} (side : Handshake A)
    (i j : List Incoming)
    → i ≡ j
    → side (open_channel j []) ≡ out
    → side (open_channel i []) ≡ out
on side i j e f = ap (λ (i : List Incoming). side (open_channel i [])) e ∙ f

module _ {A B : Type 0} (client : Handshake A) (server : Handshake B) where
  -- What the client and the server have written after so many rounds. In each one, all that the other
  -- side had written before it arrives.
  abbrev pub rounds : ℕ → Bytes × Bytes
  rounds zero = ([], [])
  rounds (suc n) = let before = rounds n in (sent_by client before.1, sent_by server before.0)

  next_round :
      (n : ℕ) (x y x' y' : Bytes)
      → rounds n ≡ (x, y)
      → sent_by client y ≡ x'
      → sent_by server x ≡ y'
      → rounds (suc n) ≡ (x', y')
  next_round n x y x' y' e p q =
      ap (λ (r : Bytes × Bytes). (sent_by client r.1, sent_by server r.0)) e
      ∙ ap (λ (t : Bytes). (t, sent_by server x)) p
      ∙ ap (λ (t : Bytes). (x', t)) q

  -- A greeting, a request and its answer where one is made, the client's hello and the server's last
  -- packet: five rounds are enough.
  pub rounds-settled :
      (cached : Bool) (asked answered greeting from_client from_server : Bytes)
      → sent_by client [] ≡ []
      → sent_by server [] ≡ greeting
      → sent_by client (greeting ++ answered) ≡ from_client
      → sent_by server from_client ≡ from_server
      → sent_by client from_server ≡ from_client
      → (cached ≡ true → answered ≡ [])
      → (cached ≡ false
          → (sent_by client greeting ≡ asked) × (sent_by server asked ≡ greeting ++ answered))
      → rounds 5 ≡ (from_client, from_server)
  rounds-settled true asked answered greeting from_client from_server silent greets told last
        complete none_made made =
      let hello : sent_by client greeting ≡ from_client =
        ap (sent_by client)
          (sym (append-nil greeting) ∙ ap (λ (t : Bytes). greeting ++ t) (sym (none_made refl)))
        ∙ told in
      let r1 = next_round 0 [] [] [] greeting refl silent greets in
      let r2 = next_round 1 [] greeting from_client greeting r1 hello greets in
      let r3 = next_round 2 from_client greeting from_client from_server r2 hello last in
      let r4 = next_round 3 from_client from_server from_client from_server r3 complete last in
      next_round 4 from_client from_server from_client from_server r4 complete last
  rounds-settled false asked answered greeting from_client from_server silent greets told last
        complete none_made made =
      let (asks, answers) = made refl in
      let r1 = next_round 0 [] [] [] greeting refl silent greets in
      let r2 = next_round 1 [] greeting asked greeting r1 asks greets in
      let r3 = next_round 2 asked greeting asked (greeting ++ answered) r2 asks answers in
      let r4 =
        next_round 3 asked (greeting ++ answered) from_client (greeting ++ answered) r3 told
          answers in
      next_round 4 from_client (greeting ++ answered) from_client from_server r4 told last
