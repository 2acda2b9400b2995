-- ===== src/Session/Exchanged.antt =====
-- src/client.rs and src/server.rs: an honest client and an honest server that take turns.
use axsh.Prelude.{
  ℕ, ◌≤◌, ◌≡◌, sym, ap, ◌∙◌, Bool, false, Bytes, length, List, [], ◌∷◌, ◌++◌, append-nil,
  append_assoc, Option, some, Result, ok, err,
}
use axsh.Crypto.{Crypto}
use axsh.Hdlc.{encode}
use axsh.Hdlc.Reader.{Incoming, incoming}
use axsh.Handshake.{HandshakeError, Handshake}
use axsh.Handshake.Forward.{open_channel}
use axsh.ConnKey.{ConnSign, public_key_bytes}
use axsh.Packet.Hello.{ServerHello}
use axsh.Packet.Wire.{type_server_complete, server_hello, serialize_unsigned}
use axsh.Transport.{Accepting}
use axsh.Client.Run.{ClientStream, new_with_server_pubkey_lookup_inner}
use axsh.Server
use axsh.Server.Run.{ServerStream, hello_loop, client_hello_received, new_inner}
use axsh.Hdlc.Reader.Frames.{incoming-append}
use axsh.Session.Rounds.{sent_of, rounds, rounds-settled, on}
use axsh.Session.Waiting.{
  no_more, client-silent, client-answered, client-asks, server-greets, server-answers,
}
use axsh.Session.HonestServer
use axsh.Session.HonestServer.{request_wire, asks, answers, request_turn, length-incoming}
use axsh.Session.HonestClient
use axsh.Session.HonestClient.{server_key, replies, known, own, asked}

pub two : (xs ys : Bytes) → incoming (xs ++ ys) ≡ incoming xs ++ (incoming ys ++ [])
two xs ys =
    incoming-append xs ys
    ∙ ap (λ (t : List Incoming). incoming xs ++ t) (sym (append-nil (incoming ys)))

pub three :
    (xs ys zs : Bytes)
    → incoming ((xs ++ ys) ++ zs) ≡ incoming xs ++ (incoming ys ++ (incoming zs ++ []))
three xs ys zs =
    ap incoming (append_assoc xs ys zs)
    ∙ incoming-append xs (ys ++ zs)
    ∙ ap (λ (t : List Incoming). incoming xs ++ t) (two ys zs)

module _ (c : Crypto) (client_sign server_sign : ConnSign c)
    (authorized_keys : Bytes → Option Bytes)
    (mode : server_sign.quantum_insecure ≡ client_sign.quantum_insecure)
    (lookup_server_pubkey : ServerHello → Result HandshakeError (Option Bytes))
    (accept_server_pubkey : ServerHello → Bytes → Result HandshakeError (Unit {0}))
    (small_key : length (public_key_bytes c server_sign) ≤ 30033) (cached : Bool)
    (hello : ServerHello) (kp : c.Ed25519KeyPair) (unique now : ℕ) (accepting : List Accepting)
    (server_wire client_wire signature : Bytes)
    (for_client : HonestClient.IsHonest c client_sign server_sign authorized_keys mode
      lookup_server_pubkey accept_server_pubkey small_key cached hello
      (own c client_sign server_sign authorized_keys mode lookup_server_pubkey accept_server_pubkey
        small_key cached hello kp unique now accepting server_wire client_wire signature)
      server_wire
      client_wire
      signature)
    (server_unique : ℕ)
    (for_server : HonestServer.IsHonest c server_sign client_sign authorized_keys mode server_unique
      (own c client_sign server_sign authorized_keys mode lookup_server_pubkey accept_server_pubkey
        small_key cached hello kp unique now accepting server_wire client_wire signature)
      client_wire)
    (server_kp : c.Ed25519KeyPair) (server_now : ℕ) (server_accepting : List Accepting)
    (made : serialize_unsigned (
        server_hello (
          Server.Run.own_hello c server_sign authorized_keys server_unique
            (record { key_pair = server_kp; sign_counter = 0 })))
      ≡ ok server_wire) where
  abbrev client_side : Handshake (ClientStream c)
  client_side =
      new_with_server_pubkey_lookup_inner c client_sign lookup_server_pubkey accept_server_pubkey
        (some kp) (ok unique) now accepting

  abbrev server_side : Handshake (ServerStream c)
  server_side =
      new_inner c server_sign authorized_keys (some server_kp) (ok server_unique) server_now
        server_accepting

  abbrev replied : Bytes
  replied = answers c server_sign client_sign authorized_keys mode cached

  -- What each of the two has written before the end, on what it has got by then.
  pub exchanged :
      (s : ClientStream c) (t : ServerStream c)
      → client_side (
          open_channel
            (incoming
              ((encode server_wire ++ replied) ++ encode (type_server_complete ∷ signature)))
            [])
        ≡ some (ok s, open_channel [] (asks cached ++ encode client_wire))
      → server_side (open_channel (incoming (asks cached ++ encode client_wire)) [])
        ≡ some (
          ok t,
          open_channel []
              ((encode server_wire ++ replied) ++ encode (type_server_complete ∷ signature)),
        )
      → rounds client_side server_side 5 ≡ (
        asks cached ++ encode client_wire,
        (encode server_wire ++ replied) ++ encode (type_server_complete ∷ signature),
      )
  exchanged s t client_run server_run =
      rounds-settled client_side server_side cached (asks false) replied (encode server_wire)
        (asks cached ++ encode client_wire)
        ((encode server_wire ++ replied) ++ encode (type_server_complete ∷ signature))
        (ap sent_of silent) (ap sent_of greets)
        (ap sent_of (on client_side _ _ (two (encode server_wire) replied) answered))
        (ap sent_of server_run) (ap sent_of client_run)
        (λ old. ap (λ (b : Bool). answers c server_sign client_sign authorized_keys mode b) old)
        (λ new. (
          ap sent_of
              (on client_side _ _ (sym (append-nil (incoming (encode server_wire)))) (asking new)),
          ap sent_of (on server_side _ _ (sym (append-nil (incoming (asks false)))) answering)
              ∙ ap
                  (λ (b : Bool).
                    encode server_wire ++ answers c server_sign client_sign authorized_keys mode b)
                  (sym new),
        ))
    where
      silent : client_side (open_channel [] []) ≡ some (err no_more, open_channel [] [])
      silent =
          client-silent c client_sign server_sign authorized_keys mode lookup_server_pubkey
            accept_server_pubkey small_key cached hello kp unique now accepting server_wire
            client_wire signature for_client

      answered :
          client_side (open_channel (incoming (encode server_wire) ++ (incoming replied ++ [])) [])
          ≡ some (err no_more, open_channel [] (asks cached ++ encode client_wire))
      answered =
          client-answered c client_sign server_sign authorized_keys mode lookup_server_pubkey
            accept_server_pubkey small_key cached hello kp unique now accepting server_wire
            client_wire signature for_client

      asking :
          cached ≡ false
          → client_side (open_channel (incoming (encode server_wire) ++ []) [])
            ≡ some (err no_more, open_channel [] (asks false))
      asking =
          client-asks c client_sign server_sign authorized_keys mode lookup_server_pubkey
            accept_server_pubkey small_key cached hello kp unique now accepting server_wire
            client_wire signature for_client

      greets :
          server_side (open_channel [] [])
          ≡ some (err no_more, open_channel [] (encode server_wire))
      greets =
          server-greets c server_sign client_sign authorized_keys mode server_unique
            (own c client_sign server_sign authorized_keys mode lookup_server_pubkey
              accept_server_pubkey small_key cached hello kp unique now accepting server_wire
              client_wire signature)
            client_wire for_server server_kp server_now server_accepting server_wire made

      answering :
          server_side (open_channel (incoming (asks false) ++ []) [])
          ≡ some (
            err no_more,
            open_channel [] (
                encode server_wire ++ answers c server_sign client_sign authorized_keys mode false),
          )
      answering =
          server-answers c server_sign client_sign authorized_keys mode server_unique
            (own c client_sign server_sign authorized_keys mode lookup_server_pubkey
              accept_server_pubkey small_key cached hello kp unique now accepting server_wire
              client_wire signature)
            client_wire for_server server_kp server_now server_accepting server_wire made
