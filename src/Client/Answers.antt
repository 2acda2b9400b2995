-- ===== src/Client/Answers.antt =====
-- What the client of src/client.rs takes from the packets of the server.
use axsh.Prelude.{
  ◌≡◌, ◌⊎◌, inl, inr, refl, ap, ◌∙◌, true, Bytes, length, List, [], ◌∷◌, ◌++◌, append-nil, Option,
  none, some, Result, ok, ok-injective, map_err-ok,
}
use mathlib.Core.Path.{subst}
use axsh.Crypto.{Crypto}
use axsh.Hdlc.{encode}
use axsh.Handshake.{HandshakeError, packet, Channel}
use axsh.Handshake.Reads.{Moved, Moved-append, Moved-refl}
use axsh.Handshake.Steps.{lift-ok, from_lift, from_send, from_receive}
use axsh.ConnKey.{ConnSign, verify_detached}
use axsh.ConnKey.Verify.{IsSigned, verify_detached-IsSigned}
use axsh.Packet.Hello.{ServerHello}
use axsh.Packet.Wire.{
  Packet, server_hello, request_server_pubkey, server_pubkey, client_hello, server_complete,
  payload, type_request_server_pubkey, serialize_unsigned, deserialize,
}
use axsh.Packet.Complete.{HasLength, deserialize-HasLength}
use axsh.Client.Run.{
  as_server_hello, as_server_pubkey, as_server_complete, parse, found_or_asked, server_verifier,
}

abbrev pub request_frame : Bytes
request_frame = encode (type_request_server_pubkey ∷ [])

pub as_server_hello-ok :
    (p : Packet) (h : ServerHello) → as_server_hello p ≡ ok h → p ≡ server_hello h
as_server_hello-ok (server_hello h') h e = cc e
as_server_hello-ok request_server_pubkey h e = cc e
as_server_hello-ok (server_pubkey key) h e = cc e
as_server_hello-ok (client_hello h') h e = cc e
as_server_hello-ok (server_complete s) h e = cc e
as_server_hello-ok (payload d) h e = cc e

as_server_pubkey-ok :
    (p : Packet) (key : Bytes) → as_server_pubkey p ≡ ok key → p ≡ server_pubkey key
as_server_pubkey-ok (server_hello h) key e = cc e
as_server_pubkey-ok request_server_pubkey key e = cc e
as_server_pubkey-ok (server_pubkey key') key e = cc e
as_server_pubkey-ok (client_hello h) key e = cc e
as_server_pubkey-ok (server_complete s) key e = cc e
as_server_pubkey-ok (payload d) key e = cc e

pub as_server_complete-ok :
    (p : Packet) (s : Bytes) → as_server_complete p ≡ ok s → p ≡ server_complete s
as_server_complete-ok (server_hello h) s e = cc e
as_server_complete-ok request_server_pubkey s e = cc e
as_server_complete-ok (server_pubkey key) s e = cc e
as_server_complete-ok (client_hello h) s e = cc e
as_server_complete-ok (server_complete s') s e = cc e
as_server_complete-ok (payload d) s e = cc e

module _ (c : Crypto) (conn_sign : ConnSign c)
    (lookup_server_pubkey : ServerHello → Result HandshakeError (Option Bytes))
    (accept_server_pubkey : ServerHello → Bytes → Result HandshakeError (Unit {0})) where
  -- `Packet::deserialize`, as the client calls it.
  abbrev pub Parses : Bytes → Packet → Type 0
  Parses wire p = (deserialize c 0 0 wire none none none conn_sign.quantum_insecure).0 ≡ ok p

  -- The transcript test, behind the parsing of the packet with the signature.
  pub complete-IsSigned :
      (wire signature key transcript : Bytes) (p : Packet)
      → parse c conn_sign lookup_server_pubkey accept_server_pubkey wire ≡ ok p
      → as_server_complete p ≡ ok signature
      → verify_detached c
          (server_verifier c conn_sign lookup_server_pubkey accept_server_pubkey key)
          signature
          transcript
        ≡ true
      → IsSigned c
          (server_verifier c conn_sign lookup_server_pubkey accept_server_pubkey key)
          signature
          transcript
  complete-IsSigned wire signature key transcript p e1 e2 e3 =
      verify_detached-IsSigned c
        (server_verifier c conn_sign lookup_server_pubkey accept_server_pubkey key) signature
        transcript
        (subst (HasLength c conn_sign.quantum_insecure (length wire))
          (map_err-ok packet _ e1
            ∙ ap (λ (p : Packet). ok p) (as_server_complete-ok p signature e2))
          (deserialize-HasLength c conn_sign.quantum_insecure 0 0 wire none none none))
        e3

  -- The key is the one that was found; or none was found, the server was asked, and the key is the one
  -- in the packet that was read then.
  abbrev pub Source : Result HandshakeError (Option Bytes) → Bytes → Bytes → List Bytes → Type 0
  Source found key requests answers =
      ((found ≡ ok (some key)) × (requests ≡ []) × (answers ≡ []))
      ⊎ ((found ≡ ok none)
          × (requests ≡ request_frame)
          × (wire : Bytes) × (answers ≡ wire ∷ [])
          × Parses wire (server_pubkey key))

  -- Where the public key comes from, what was sent for it, and what was read.
  pub found_or_asked_lem :
      (found : Option Bytes) (channel final : Channel) (key : Bytes)
      → found_or_asked c conn_sign lookup_server_pubkey accept_server_pubkey found channel
        ≡ some (ok key, final)
      → (requests : Bytes) × (answers : List Bytes) × Source (ok found) key requests answers
        × Moved channel final answers requests
  unfolding serialize_unsigned
  found_or_asked_lem (some k) channel final key e =
      let (same, kept) = lift-ok (ok k) e in
      (
        [],
        [],
        inl (ap (λ (k : Bytes). ok (some k)) (ok-injective same), refl, refl),
        subst (λ (d : Channel). Moved channel d [] []) kept (Moved-refl channel),
      )
  found_or_asked_lem none channel final key e = from_send request_frame _ channel e (λ c1 asked f.
      from_receive _ c1 f (λ wire c2 answered g.
        from_lift (parse c conn_sign lookup_server_pubkey accept_server_pubkey wire) _ c2 g
          (λ p parsed h.
            let (is_key, kept) = lift-ok (as_server_pubkey p) h in
            (
              request_frame ++ [],
              wire ∷ [],
              inr (
                refl,
                append-nil request_frame,
                wire,
                refl,
                map_err-ok packet _ parsed
                    ∙ ap (λ (p : Packet). ok p) (as_server_pubkey-ok p key is_key),
              ),
              subst (λ (d : Channel). Moved channel d (wire ∷ []) (request_frame ++ [])) kept
                  (Moved-append asked answered),
            ))))
