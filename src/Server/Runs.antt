-- ===== src/Server/Runs.antt =====
-- A run of the server's loop of src/server.rs with toy signatures, and the theorem at its input.
use axsh.Prelude.{
  ◌≡◌, refl, true, Bytes, bytes_eq, [], ◌∷◌, ◌++◌, Option, none, some, ok, if◌then◌else◌,
}
use axsh.Prelude.Words.{to_be_bytes, from_be_bytes}
use axsh.Crypto.Toy.{toy, seal, zeros}
use axsh.Hdlc.{
  encode, decode, unescape, finish, escape_into, frame_fcs, fold_fcs, update_fcs, shifts, shift_fcs,
}
use axsh.Hdlc.Reader.{
  incoming, read_frame_async, drive, poll_read_frame, poll_loop, push_frame_byte,
}
use axsh.Bundle.{decode_conn_public_key}
use axsh.ConnKey.{
  ConnSign, conn_signature_len, verify, verify_prefixed, check_signatures, peer_verifier,
  new_verify,
}
use axsh.Packet.Hello.{ClientHello, decode_client_hello, take_u64, take_fixed}
use axsh.Packet.Wire.{
  peek_type, peek_client_hello, signed_message, deserialize, deserialize_client_hello,
  verify_conn_signed,
}
use axsh.Handshake.{Channel, receive}
use axsh.Server.Accept.{accept_client_hello}
use axsh.Server.Run.{ServerStream, on_packet, hello_loop, client_hello_received, new_inner}
use axsh.Server.Authentic.{IsAuthentic}
use axsh.Server.Completed.{hello_loop-IsAuthentic, Completed, new_inner-Completed}
use axsh.Packet.Wire.{serialize_unsigned, type_server_hello, type_server_complete}
use axsh.Packet.Hello.{encode_server_hello}
use axsh.Bundle.{encode_conn_public_key}
use axsh.ConnKey
use axsh.ConnKey.{signature}
use axsh.PacketKey
use axsh.Transport.{new_stream}
use axsh.PacketKey.{new_sign}
use axsh.ConnKey.{sign_detached}

abbrev host_key : ConnSign toy
host_key = record {
  ml_dsa_key_pair = tt;
  ed25519_key_pair = tt;
  ml_dsa_pkcs8 = 1 ∷ [];
  ed25519_pkcs8 = 2 ∷ [];
  quantum_insecure = true;
}

abbrev authorized : Bytes → Option Bytes
authorized digest = if bytes_eq digest (zeros 32) then some (1 ∷ (5 ∷ zeros 32)) else none

abbrev hello_body : Bytes
hello_body = 0 ∷ 0 ∷ 0 ∷ 0 ∷ 0 ∷ 0 ∷ 0 ∷ 78 ∷ zeros 64

abbrev hello_wire : Bytes
hello_wire = 3 ∷ (seal 63 (77 ∷ (78 ∷ [])) ++ hello_body)

abbrev hello : ClientHello
hello = record {
  unique = 78;
  conn_sign_public_key_sha256 = zeros 32;
  packet_sign_public_key = zeros 32;
}

abbrev channel : Channel
channel = record { incoming = incoming (encode hello_wire); writes = []; sent = [] }

hello_loop_run :
    hello_loop toy host_key authorized 77 1 channel
    ≡ some (ok (hello_wire, hello), record { incoming = []; writes = []; sent = [] })
unfolding receive on_packet hello_loop accept_client_hello read_frame_async drive poll_read_frame
    poll_loop push_frame_byte encode decode unescape finish escape_into frame_fcs fold_fcs
    update_fcs shifts shift_fcs peek_type peek_client_hello signed_message conn_signature_len
    decode_client_hello take_u64 take_fixed from_be_bytes to_be_bytes deserialize
    deserialize_client_hello verify_conn_signed verify_prefixed verify check_signatures
    peer_verifier new_verify decode_conn_public_key
hello_loop_run = refl

hello_loop-IsAuthentic_example : IsAuthentic toy host_key authorized 77 hello_wire hello
hello_loop-IsAuthentic_example =
    hello_loop-IsAuthentic toy host_key authorized 77 1 channel
      (record { incoming = []; writes = []; sent = [] }) hello_wire hello hello_loop_run

-- What the host sends first, and its signature of that and of the client's hello.
abbrev server_hello_wire : Bytes
server_hello_wire =
    type_server_hello
    ∷ encode_server_hello (record {
      unique = 77;
      conn_sign_public_key_sha256 = seal 31 (encode_conn_public_key (5 ∷ []) (zeros 32));
      packet_sign_public_key = zeros 32;
    })

abbrev final : Channel
final = record {
  incoming = [];
  writes = [];
  sent =
      encode server_hello_wire
      ++ encode (type_server_complete ∷ (seal 63 (server_hello_wire ++ hello_wire)));
}

abbrev stream : ServerStream toy
stream = record {
  client_hello = hello;
  transport =
      new_stream toy (record { incoming = []; accepting = []; sent = final.sent })
        (record { key_pair = tt; sign_counter = 0 })
        (record { last_success = 5; public_key = zeros 32; verify_counter = 0 });
}

new_inner_run :
    new_inner toy host_key authorized (some tt) (ok 77) 5 [] channel ≡ some (ok stream, final)
unfolding new_inner client_hello_received serialize_unsigned sign_detached on_packet receive
    hello_loop accept_client_hello read_frame_async drive poll_read_frame poll_loop push_frame_byte
    encode decode unescape finish escape_into frame_fcs fold_fcs update_fcs shifts shift_fcs
    peek_type peek_client_hello signed_message conn_signature_len decode_client_hello take_u64
    take_fixed from_be_bytes to_be_bytes deserialize deserialize_client_hello verify_conn_signed
    verify_prefixed verify check_signatures peer_verifier new_verify decode_conn_public_key new_sign
    new_stream PacketKey.public_key_bytes ConnKey.public_key_bytes signature encode_server_hello
    encode_conn_public_key PacketKey.new_verify
new_inner_run = refl

new_inner-Completed_example : Completed toy host_key authorized (ok 77) 5 [] channel final stream
new_inner-Completed_example =
    new_inner-Completed toy host_key authorized (some tt) (ok 77) 5 [] channel final stream
      new_inner_run
