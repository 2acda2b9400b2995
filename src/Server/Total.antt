-- ===== src/Server/Total.antt =====
-- src/server.rs: the fuel of the loop of the handshake is enough.
use axsh.Prelude.{
  ◌∙◌, if_elim, ℕ, zero, suc, ◌<◌, ◌≡◌, refl, sym, ap, Bytes, length, arith, ◌==◌, Option, ok, err,
  map_err,
}
use axsh.Crypto.{Crypto}
use axsh.Handshake.{packet, unexpected_type, Channel, Handshake, lift, send, receive}
use axsh.Handshake.Steps.{Ends, >>=-Ends, lift-ok, send-ok, receive-Shorter}
use axsh.Handshake.Total.{>>=-Total, lift-Total, send-Total, receive-Total}
use axsh.ConnKey.{ConnSign}
use axsh.Packet.Hello.{ClientHello}
use axsh.Packet.Wire.{type_request_server_pubkey, type_client_hello, peek_type}
use axsh.Server.Accept.{request_reply, accept_client_hello}
use axsh.Server.Run.{on_packet, hello_loop, client_hello_received}

module _ (c : Crypto) (conn_sign : ConnSign c) (authorized_keys : Bytes → Option Bytes)
    (unique : ℕ) where
  -- Where a reply has left the input alone, the next turn ends.
  on_packet-Ends :
      (next : Handshake (Bytes × ClientHello)) (wire : Bytes) (t : ℕ) (channel : Channel)
      → ((second : Channel) → second.incoming ≡ channel.incoming → Ends next second)
      → Ends (on_packet c conn_sign authorized_keys unique next wire t) channel
  unfolding on_packet
  on_packet-Ends next wire t channel go =
      if_elim (λ (m : Handshake (Bytes × ClientHello)). Ends m channel)
        (t == type_request_server_pubkey)
        (>>=-Ends (lift (request_reply c conn_sign authorized_keys wire)) _ channel (_, refl)
          (λ frame between p.
            let kept = (lift-ok (request_reply c conn_sign authorized_keys wire) p).1 in
            >>=-Ends (send frame) _ between (send-Total frame between) (λ u third q.
              go third
                ((send-ok frame between q).1 ∙ ap (λ (d : Channel). d.incoming) (sym kept)))))
        (if_elim (λ (m : Handshake (Bytes × ClientHello)). Ends m channel) (t == type_client_hello)
          (>>=-Total (lift (accept_client_hello c conn_sign authorized_keys unique wire)) _
            (lift-Total _) (λ h. lift-Total (ok (wire, h))) channel)
          (lift-Total (err (unexpected_type t)) channel))

  hello_loop-Ends :
      (fuel : ℕ) (channel : Channel)
      → length channel.incoming < fuel
      → Ends (hello_loop c conn_sign authorized_keys unique fuel) channel
  unfolding hello_loop
  hello_loop-Ends zero channel enough = absurd (omega arith)
  hello_loop-Ends (suc fuel) channel enough =
      >>=-Ends receive _ channel (receive-Total channel) (λ wire first p.
        >>=-Ends (lift (map_err packet (peek_type wire))) _ first (_, refl)
          (λ t second q.
            on_packet-Ends (hello_loop c conn_sign authorized_keys unique fuel) wire t second
              (λ third same.
                let shorter = receive-Shorter channel p in
                let kept =
                  ap (λ (d : Channel). length d.incoming)
                    (lift-ok (map_err packet (peek_type wire)) q).1 in
                let end = ap length same in hello_loop-Ends fuel third (omega arith))))

module _ (c : Crypto) (conn_sign : ConnSign c) (authorized_keys : Bytes → Option Bytes) where
  -- The fuel is enough: on an input that is a finite list, closed by the end of file, the loop is never
  -- cut off.
  client_hello_received-Ends :
      (unique : ℕ) (channel : Channel)
      → Ends (client_hello_received c conn_sign authorized_keys unique) channel
  unfolding client_hello_received
  client_hello_received-Ends unique channel =
      hello_loop-Ends c conn_sign authorized_keys unique (suc (length channel.incoming)) channel
        (omega arith)
