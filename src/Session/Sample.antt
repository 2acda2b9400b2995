-- ===== src/Session/Sample.antt =====
-- The inputs of one connection between a client and a server of src/client.rs and src/server.rs, with
-- toy signatures.
use axsh.Prelude.{
  List, ℕ, true, Bytes, bytes_eq, [], ◌∷◌, ◌++◌, Option, none, some, Result, ok, if◌then◌else◌,
}
use axsh.Prelude.Words.{to_be_bytes}
use axsh.Crypto.{Crypto}
use axsh.Crypto.Toy.{seal, zeros}
use axsh.Hdlc.{encode}
use axsh.Hdlc.Reader.{Incoming, incoming}
use axsh.ConnKey.{ConnSign}
use axsh.PacketKey.{packet_signature_input}
use axsh.Packet.Hello.{ServerHello, ClientHello, encode_server_hello, encode_client_hello}
use axsh.Packet.Wire.{type_payload, type_server_hello, type_client_hello, type_server_complete}
use axsh.Transport.{new_stream}
use axsh.Handshake.{HandshakeError, Channel}
use axsh.Client.Run.{ClientStream}
use axsh.Server.Run.{ServerStream}

-- The Ed25519 keys are numbered: 1 and 2 are the long-term keys of the server and the client, 3 and 4
-- their packet keys.
abbrev pub ed_key : ℕ → Bytes
ed_key n = n ∷ zeros 31

-- What the two send after the handshake.
abbrev pub from_server : List Bytes
from_server = (5 ∷ 6 ∷ []) ∷ []

abbrev pub from_client : List Bytes
from_client = (7 ∷ []) ∷ []

abbrev pub server_key : Bytes
server_key = 1 ∷ (5 ∷ ed_key 1)

abbrev pub client_key : Bytes
client_key = 1 ∷ (5 ∷ ed_key 2)

abbrev server_hello : ServerHello
server_hello = record {
  unique = 77;
  conn_sign_public_key_sha256 = seal 31 server_key;
  packet_sign_public_key = ed_key 3;
}

abbrev pub server_wire : Bytes
server_wire = type_server_hello ∷ encode_server_hello server_hello

abbrev pub client_hello : ClientHello
client_hello = record {
  unique = 78;
  conn_sign_public_key_sha256 = seal 31 client_key;
  packet_sign_public_key = ed_key 4;
}

abbrev pub client_wire : Bytes
client_wire =
    type_client_hello
    ∷ (seal 63 (to_be_bytes 8 77 ++ encode_client_hello client_hello)
        ++ encode_client_hello client_hello)

-- Signatures are checksums, and all keys but the client's long-term one are known to have signed one
-- message each.
abbrev pub exact : Crypto
exact = record {
  MlDsaKeyPair = Unit {0};
  Ed25519KeyPair = ℕ;
  ml_dsa_signature_len = 2;
  ml_dsa_sign = λ k m. some (seal 1 m);
  ml_dsa_public_key = λ k. 5 ∷ [];
  ml_dsa_verify = λ der m s. bytes_eq (seal 1 m) s;
  ml_dsa_to_pkcs8 = λ k. 1 ∷ [];
  ml_dsa_from_pkcs8 = λ bytes. some tt;
  ed25519_sign = λ k m. seal 63 m;
  ed25519_public_key = ed_key;
  ed25519_verify = λ key m s.
      if bytes_eq key (ed_key 1)
      then bytes_eq m (server_wire ++ client_wire)
      else if bytes_eq key (ed_key 3)
      then bytes_eq m (packet_signature_input 0 (5 ∷ 6 ∷ []))
      else if bytes_eq key (ed_key 4)
      then bytes_eq m (packet_signature_input 0 (7 ∷ []))
      else bytes_eq (seal 63 m) s;
  ed25519_to_pkcs8 = λ k. 2 ∷ [];
  ed25519_from_pkcs8 = λ bytes. some 2;
  sha256 = λ m. seal 31 m;
}

-- The frame of a payload, which is the first one of its sender.
abbrev payload_frame : Bytes → List Incoming
payload_frame p = incoming (encode (type_payload ∷ (seal 63 (packet_signature_input 0 p) ++ p)))

abbrev pub server_payload : List Incoming
server_payload = payload_frame (5 ∷ 6 ∷ [])

-- It arrives twice.
abbrev pub client_payload : List Incoming
client_payload = payload_frame (7 ∷ []) ++ payload_frame (7 ∷ [])

abbrev pub key_of : ℕ → ConnSign exact
key_of ed = record {
  ml_dsa_key_pair = tt;
  ed25519_key_pair = ed;
  ml_dsa_pkcs8 = 1 ∷ [];
  ed25519_pkcs8 = 2 ∷ [];
  quantum_insecure = true;
}

abbrev pub authorized : Bytes → Option Bytes
authorized digest = if bytes_eq digest (seal 31 client_key) then some client_key else none

abbrev pub lookup : ServerHello → Result HandshakeError (Option Bytes)
lookup hello = ok (some server_key)

abbrev pub accept : ServerHello → Bytes → Result HandshakeError (Unit {0})
accept hello key = ok tt

abbrev pub client_channel : Channel
client_channel = record {
  incoming =
      incoming (
        encode server_wire
        ++ encode (type_server_complete ∷ (seal 63 (server_wire ++ client_wire))))
      ++ server_payload;
  writes = [];
  sent = [];
}

abbrev pub server_channel : Channel
server_channel = record {
  incoming = incoming (encode client_wire) ++ client_payload;
  writes = [];
  sent = [];
}

abbrev pub client_final : Channel
client_final = record { incoming = server_payload; writes = []; sent = encode client_wire }

abbrev pub server_final : Channel
server_final = record {
  incoming = client_payload;
  writes = [];
  sent =
      encode server_wire ++ encode (type_server_complete ∷ (seal 63 (server_wire ++ client_wire)));
}

abbrev pub client_stream : ClientStream exact
client_stream = record {
  server_hello = server_hello;
  transport =
      new_stream exact
        (record { incoming = server_payload; accepting = []; sent = client_final.sent })
        (record { key_pair = 4; sign_counter = 0 })
        (record { last_success = 5; public_key = ed_key 3; verify_counter = 0 });
}

abbrev pub server_stream : ServerStream exact
server_stream = record {
  client_hello = client_hello;
  transport =
      new_stream exact
        (record { incoming = client_payload; accepting = []; sent = server_final.sent })
        (record { key_pair = 3; sign_counter = 0 })
        (record { last_success = 6; public_key = ed_key 4; verify_counter = 0 });
}
