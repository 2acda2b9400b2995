-- ===== src/Client/Runs.antt =====
-- A run of the client's handshake of src/client.rs with toy signatures, and the theorems at its input.
use axsh.Prelude.{◌≡◌, refl, true, Bytes, [], ◌∷◌, ◌++◌, Option, some, Result, ok}
use axsh.Prelude.Words.{to_be_bytes, from_be_bytes}
use axsh.Crypto.Toy.{toy, seal, zeros}
use axsh.Hdlc.{
  encode, decode, unescape, finish, escape_into, frame_fcs, fold_fcs, update_fcs, shifts, shift_fcs,
}
use axsh.Hdlc.Reader.{
  incoming, read_frame_async, drive, poll_read_frame, poll_loop, push_frame_byte,
}
use axsh.Bundle.{encode_conn_public_key, decode_conn_public_key}
use axsh.ConnKey
use axsh.ConnKey.{
  ConnSign, conn_signature_len, verify, verify_detached, sign_prefixed, check_signatures,
  new_verify, signature,
}
use axsh.PacketKey
use axsh.PacketKey.{new_sign}
use axsh.Packet.Hello.{
  ServerHello, encode_server_hello, decode_server_hello, encode_client_hello, take_u64, take_fixed,
}
use axsh.Packet.Wire.{
  type_server_hello, type_client_hello, type_server_complete, serialize_unsigned,
  serialize_conn_signed, decode_server_complete, deserialize,
}
use axsh.Transport.{new_stream}
use axsh.Handshake.{HandshakeError, Channel, receive}
use axsh.KeyStore.Load.{Map, missing, get}
use axsh.KeyStore.Connect.{connect}
use axsh.KeyStore.Trust.{Verified, connect-Verified}
use axsh.Client.Run.{ClientStream, exchange, new_with_server_pubkey_lookup_inner}
use axsh.Client.Completed.{Completed, new_with_server_pubkey_lookup_inner-Completed}

abbrev own_key : ConnSign toy
own_key = record {
  ml_dsa_key_pair = tt;
  ed25519_key_pair = tt;
  ml_dsa_pkcs8 = 1 ∷ [];
  ed25519_pkcs8 = 2 ∷ [];
  quantum_insecure = true;
}

abbrev server_key : Bytes
server_key = 1 ∷ (5 ∷ zeros 32)

-- The key of the host is in the cache, and the application accepts it.
abbrev lookup : ServerHello → Result HandshakeError (Option Bytes)
lookup hello = ok (some server_key)

abbrev accept : ServerHello → Bytes → Result HandshakeError (Unit {0})
accept hello key = ok tt

abbrev hello : ServerHello
hello = record {
  unique = 77;
  conn_sign_public_key_sha256 = seal 31 server_key;
  packet_sign_public_key = zeros 32;
}

abbrev hello_wire : Bytes
hello_wire = type_server_hello ∷ encode_server_hello hello

abbrev own_body : Bytes
own_body = to_be_bytes 8 78 ++ (seal 31 server_key ++ zeros 32)

abbrev own_wire : Bytes
own_wire = type_client_hello ∷ (seal 63 (to_be_bytes 8 77 ++ own_body) ++ own_body)

abbrev channel : Channel
channel = record {
  incoming =
      incoming
        (encode hello_wire ++ encode (type_server_complete ∷ (seal 63 (hello_wire ++ own_wire))));
  writes = [];
  sent = [];
}

abbrev final : Channel
final = record { incoming = []; writes = []; sent = encode own_wire }

abbrev stream : ClientStream toy
stream = record {
  server_hello = hello;
  transport =
      new_stream toy (record { incoming = []; accepting = []; sent = encode own_wire })
        (record { key_pair = tt; sign_counter = 0 })
        (record { last_success = 5; public_key = zeros 32; verify_counter = 0 });
}

run :
    new_with_server_pubkey_lookup_inner toy own_key lookup accept (some tt) (ok 78) 5 [] channel
    ≡ some (ok stream, final)
unfolding new_with_server_pubkey_lookup_inner exchange serialize_unsigned serialize_conn_signed
    receive read_frame_async drive poll_read_frame poll_loop push_frame_byte encode decode unescape
    finish escape_into frame_fcs fold_fcs update_fcs shifts shift_fcs conn_signature_len take_u64
    take_fixed from_be_bytes to_be_bytes deserialize decode_server_hello decode_server_complete
    encode_server_hello encode_client_hello verify verify_detached sign_prefixed check_signatures
    new_verify decode_conn_public_key encode_conn_public_key new_sign new_stream
    PacketKey.public_key_bytes ConnKey.public_key_bytes signature PacketKey.new_verify
run = refl

new_with_server_pubkey_lookup_inner-Completed_example :
    Completed toy own_key lookup accept (ok 78) 5 [] channel final stream
new_with_server_pubkey_lookup_inner-Completed_example =
    new_with_server_pubkey_lookup_inner-Completed toy own_key lookup accept (some tt) (ok 78) 5 []
      channel final stream run

-- The same session, where the host is in the file of known hosts.
abbrev known_hosts : Map
known_hosts = (104 ∷ [], server_key) ∷ []

connect_run :
    connect known_hosts (104 ∷ []) [] missing true toy own_key (some tt) (ok 78) 5 [] channel
    ≡ some (ok stream, final)
unfolding connect get new_with_server_pubkey_lookup_inner exchange serialize_unsigned
    serialize_conn_signed receive read_frame_async drive poll_read_frame poll_loop push_frame_byte
    encode decode unescape finish escape_into frame_fcs fold_fcs update_fcs shifts shift_fcs
    conn_signature_len take_u64 take_fixed from_be_bytes to_be_bytes deserialize decode_server_hello
    decode_server_complete encode_server_hello encode_client_hello verify verify_detached
    sign_prefixed check_signatures new_verify decode_conn_public_key encode_conn_public_key new_sign
    new_stream PacketKey.public_key_bytes ConnKey.public_key_bytes signature PacketKey.new_verify
connect_run = refl

connect-Verified_example :
    Verified known_hosts (104 ∷ []) [] missing true toy own_key (ok 78) 5 [] channel final stream
connect-Verified_example =
    connect-Verified known_hosts (104 ∷ []) [] missing true toy own_key (some tt) (ok 78) 5 []
      channel final stream connect_run
