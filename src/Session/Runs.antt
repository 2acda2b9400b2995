-- ===== src/Session/Runs.antt =====
-- One connection between a client and a server of src/client.rs and src/server.rs, with toy
-- signatures, and the theorem at its input.
use mathlib.Core.Path.{subst}
use axsh.Prelude.{
  List, ℕ, inl, ◌<◌, ◌^◌, ◌≡◌, refl, ap, ◌∙◌, true, Bytes, bytes_eq→eq, [], ◌∷◌, ◌++◌, some, ok,
  ok-injective, arith,
}
use axsh.Prelude.Words.{to_be_bytes, from_be_bytes}
use axsh.Crypto.Toy.{seal}
use axsh.Hdlc.{
  encode, decode, unescape, finish, escape_into, frame_fcs, fold_fcs, update_fcs, shifts, shift_fcs,
}
use axsh.Hdlc.Reader.{
  Incoming, read_frame_async, drive, poll_read_frame, poll_loop, push_frame_byte,
}
use axsh.Bundle.{encode_conn_public_key, decode_conn_public_key}
use axsh.ConnKey
use axsh.ConnKey.{
  ConnSign, conn_signature_len, verify, verify_detached, verify_prefixed, sign_prefixed,
  sign_detached, check_signatures, peer_verifier, new_verify, signature,
}
use axsh.PacketKey
use axsh.PacketKey.{packet_signature_input, new_sign}
use axsh.Packet.Hello.{
  encode_server_hello, decode_server_hello, encode_client_hello, decode_client_hello, take_u64,
  take_fixed,
}
use axsh.Packet.Wire.{
  type_server_complete, serialize_unsigned, serialize_conn_signed, decode_server_complete,
  peek_type, peek_client_hello, signed_message, deserialize, deserialize_client_hello,
  verify_conn_signed,
}
use axsh.Transport.{new_stream}
use axsh.Handshake.{receive}
use axsh.Client
use axsh.Client.Run.{exchange, new_with_server_pubkey_lookup_inner}
use axsh.Client.Completed.{new_with_server_pubkey_lookup_inner-Completed}
use axsh.Server
use axsh.Server.Accept.{accept_client_hello}
use axsh.Server.Run.{on_packet, hello_loop, client_hello_received, new_inner}
use axsh.Server.Completed.{new_inner-Completed}
use axsh.Session.Payloads.{Unforged, ReadsFirst, Completed-ReadsFirst}
use axsh.Session.Agreement.{Completed-Agree, Agree, SignedOnly, HasLengths, Fits}
use axsh.Session.Sample.{
  server_payload, client_payload, ed_key, from_server, from_client, server_key, client_key,
  server_wire, client_hello, client_wire, exact, key_of, authorized, lookup, accept, client_channel,
  server_channel, client_final, server_final, client_stream, server_stream,
}

client_run :
    new_with_server_pubkey_lookup_inner exact
      (key_of 2)
      lookup
      accept
      (some 4)
      (ok 78)
      5
      []
      client_channel
    ≡ some (ok client_stream, client_final)
unfolding new_with_server_pubkey_lookup_inner exchange serialize_unsigned serialize_conn_signed
    receive read_frame_async drive poll_read_frame poll_loop push_frame_byte encode decode unescape
    finish escape_into frame_fcs fold_fcs update_fcs shifts shift_fcs conn_signature_len take_u64
    take_fixed from_be_bytes to_be_bytes deserialize decode_server_hello decode_server_complete
    encode_server_hello encode_client_hello verify verify_detached sign_prefixed check_signatures
    new_verify decode_conn_public_key encode_conn_public_key new_sign new_stream
    PacketKey.public_key_bytes ConnKey.public_key_bytes signature PacketKey.new_verify
client_run = refl

server_run :
    new_inner exact (key_of 1) authorized (some 3) (ok 77) 6 [] server_channel
    ≡ some (ok server_stream, server_final)
unfolding new_inner client_hello_received serialize_unsigned sign_detached on_packet receive
    hello_loop accept_client_hello read_frame_async drive poll_read_frame poll_loop push_frame_byte
    encode decode unescape finish escape_into frame_fcs fold_fcs update_fcs shifts shift_fcs
    peek_type peek_client_hello signed_message conn_signature_len decode_client_hello take_u64
    take_fixed from_be_bytes to_be_bytes deserialize deserialize_client_hello verify_conn_signed
    verify_prefixed verify check_signatures peer_verifier new_verify decode_conn_public_key new_sign
    new_stream PacketKey.public_key_bytes ConnKey.public_key_bytes signature encode_server_hello
    encode_client_hello encode_conn_public_key PacketKey.new_verify
server_run = refl

-- What the two have gone through.
abbrev client_completed :
    Client.Completed.Completed exact
      (key_of 2)
      lookup
      accept
      (ok 78)
      5
      []
      client_channel
      client_final
      client_stream
unfolding serialize_conn_signed sign_prefixed signature encode_client_hello encode_server_hello
    encode_conn_public_key ConnKey.public_key_bytes PacketKey.public_key_bytes to_be_bytes
    from_be_bytes new_stream PacketKey.new_verify deserialize decode_server_hello take_fixed
    take_u64 decode_conn_public_key new_verify read_frame_async drive poll_read_frame poll_loop
    push_frame_byte encode decode unescape finish escape_into frame_fcs fold_fcs update_fcs shifts
    shift_fcs decode_server_complete conn_signature_len
client_completed = record {
  server_hello_wire = server_wire;
  public_key = server_key;
  requests = [];
  answers = [];
  packet_sign = record { key_pair = 4; sign_counter = 0 };
  unique = 78;
  client_hello_wire = client_wire;
  complete_wire = type_server_complete ∷ (seal 63 (server_wire ++ client_wire));
  signature = seal 63 (server_wire ++ client_wire);
  received = (
    encode server_wire,
    _,
    refl,
    refl,
    (
      encode (type_server_complete ∷ (seal 63 (server_wire ++ client_wire))),
      server_payload,
      refl,
      refl,
      refl,
    ),
  );
  complete = refl;
  parsed = refl;
  source = inl (refl, refl, refl);
  matching = refl;
  accepted = refl;
  drawn = refl;
  hello = refl;
  signed = record { der = 5 ∷ []; key = ed_key 1; decoded = refl; genuine = (refl, refl) };
  sent = refl;
  transport = refl;
}

abbrev server_completed :
    Server.Completed.Completed exact
      (key_of 1)
      authorized
      (ok 77)
      6
      []
      server_channel
      server_final
      server_stream
unfolding serialize_unsigned sign_detached signature encode_client_hello encode_server_hello
    encode_conn_public_key ConnKey.public_key_bytes PacketKey.public_key_bytes to_be_bytes
    from_be_bytes new_stream PacketKey.new_verify decode_client_hello take_fixed take_u64
    decode_conn_public_key new_verify peer_verifier read_frame_async drive poll_read_frame poll_loop
    push_frame_byte encode decode unescape finish escape_into frame_fcs fold_fcs update_fcs shifts
    shift_fcs
server_completed = record {
  packet_sign = record { key_pair = 3; sign_counter = 0 };
  unique = 77;
  server_hello_wire = server_wire;
  client_hello_wire = client_wire;
  signature = seal 63 (server_wire ++ client_wire);
  requests = [];
  asked = tt;
  received = (encode client_wire, client_payload, refl, refl, refl);
  drawn = refl;
  hello = refl;
  authentic = record {
    bundle = client_key;
    signature = seal 63 (to_be_bytes 8 77 ++ encode_client_hello client_hello);
    body = encode_client_hello client_hello;
    authorized = refl;
    shape = refl;
    signed = record { der = 5 ∷ []; key = ed_key 2; decoded = refl; genuine = (refl, refl) };
    read = refl;
  };
  signed = refl;
  sent = refl;
  transport = refl;
}

exact-HasLengths : HasLengths exact
exact-HasLengths = (λ m. refl, λ k. refl)

u64 : (m : ℕ) → m < 2 ^ 64 → Fits (ok m)
u64 m h n e = subst (λ n. n < 2 ^ 64) (ok-injective e) h

exact-SignedOnly :
    SignedOnly exact exact-HasLengths
      (key_of 2)
      lookup
      accept
      (key_of 1)
      authorized
      (ok 78)
      (ok 77)
      5
      6
      []
      []
      client_channel
      client_final
      server_channel
      server_final
      client_stream
      server_stream
      client_completed
      server_completed
unfolding decode_conn_public_key new_verify client_completed server_completed
exact-SignedOnly sig msg s =
    let pair : ◌≡◌ {A = Bytes × Bytes} (5 ∷ [], ed_key 1) (s.der, s.key) = ok-injective s.decoded in
    let fine : exact.ed25519_verify (ed_key 1) msg sig ≡ true =
      ap (λ (k : Bytes). exact.ed25519_verify k msg sig) (ap (λ (p : Bytes × Bytes). p.1) pair)
      ∙ s.genuine.1 in
    bytes_eq→eq msg (server_wire ++ client_wire) fine

Completed-Agree_example :
    Agree exact exact-HasLengths
      (key_of 2)
      lookup
      accept
      (key_of 1)
      authorized
      (ok 78)
      (ok 77)
      5
      6
      []
      []
      client_channel
      client_final
      server_channel
      server_final
      client_stream
      server_stream
      client_completed
      server_completed
Completed-Agree_example =
    Completed-Agree exact exact-HasLengths (key_of 2) lookup accept (key_of 1) authorized (ok 78)
      (ok 77) 5 6 [] [] client_channel client_final server_channel server_final client_stream
      server_stream (u64 78 (omega arith)) (u64 77 (omega arith)) client_completed server_completed
      exact-SignedOnly

server_payload-Signed : Unforged exact from_server (ed_key 3)
server_payload-Signed input sig e =
    (0, 5 ∷ 6 ∷ [], refl, bytes_eq→eq input (packet_signature_input 0 (5 ∷ 6 ∷ [])) e)

client_payload-Signed : Unforged exact from_client (ed_key 4)
client_payload-Signed input sig e =
    (0, 7 ∷ [], refl, bytes_eq→eq input (packet_signature_input 0 (7 ∷ [])) e)

abbrev clock : List Incoming → ℕ × ℕ
clock rest = (7, 8)

Completed-ReadsFirst_example :
    ReadsFirst exact clock from_server client_stream.transport (1 ∷ 7 ∷ [])
    × ReadsFirst exact clock from_client server_stream.transport (9 ∷ 9 ∷ [])
unfolding PacketKey.public_key_bytes client_completed server_completed
Completed-ReadsFirst_example =
    Completed-ReadsFirst exact exact-HasLengths (key_of 2) lookup accept (key_of 1) authorized
      (ok 78) (ok 77) 5 6 [] [] client_channel client_final server_channel server_final
      client_stream server_stream (u64 78 (omega arith)) (u64 77 (omega arith)) client_completed
      server_completed exact-SignedOnly clock from_server from_client (1 ∷ 7 ∷ []) (9 ∷ 9 ∷ [])
      (omega arith) (omega arith) server_payload-Signed client_payload-Signed
