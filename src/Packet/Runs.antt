-- ===== src/Packet/Runs.antt =====
-- Runs of the wire format of src/packet.rs with toy signatures, and the theorems at concrete inputs.
use axsh.Prelude.{◌≡◌, refl, true, false, Bytes, [], ◌∷◌, ◌++◌, none, some, ok, arith}
use axsh.Prelude.Samples.{all_bytes-All}
use mathlib.Core.Logic.{◌↔◌}
use axsh.Prelude.Words.{to_be_bytes}
use axsh.Crypto.Toy.{toy, toy_laws, seal, zeros}
use axsh.ConnKey.{ConnSign, ConnVerify, verifier}
use axsh.PacketKey
use axsh.PacketKey.{max_connection_idle, PacketSign, PacketVerify}
use axsh.Packet.Hello.{ServerHello, ClientHello, IsServerHello, IsClientHello, encode_client_hello}
use axsh.Packet.Wire.{
  server_hello, client_hello, server_pubkey, type_client_hello, serialize_unsigned, deserialize,
  payload, serialize_conn_signed, serialize_packet_signed, peek_client_hello,
}
use axsh.Packet.RoundTrip.{IsUnsigned, deserialize-serialize_unsigned}
use axsh.Packet.Unsigned.{deserialize-IsWritten}
use axsh.Packet.Signed.{
  deserialize-serialize_conn_signed, deserialize-serialize_packet_signed, IsSignedHello,
  deserialize-client_hello_iff,
}

abbrev conn_signer : ConnSign toy
conn_signer = record {
  ml_dsa_key_pair = tt;
  ed25519_key_pair = tt;
  ml_dsa_pkcs8 = 1 ∷ [];
  ed25519_pkcs8 = 2 ∷ [];
  quantum_insecure = true;
}

abbrev conn_checker : ConnVerify
conn_checker = record { public_key_bundle = 1 ∷ (5 ∷ zeros 32); quantum_insecure = true }

abbrev signer : PacketSign toy
signer = record { key_pair = tt; sign_counter = 3 }

abbrev peer : PacketVerify
peer = record { last_success = 10; public_key = zeros 32; verify_counter = 3 }

abbrev greeting : ServerHello
greeting = record {
  unique = 77;
  conn_sign_public_key_sha256 = zeros 32;
  packet_sign_public_key = zeros 32;
}

greeting-IsServerHello : IsServerHello greeting
greeting-IsServerHello = record {
  unique_fits = omega arith;
  length_digest = refl;
  length_key = refl;
}

abbrev answer : ClientHello
answer = record {
  unique = 78;
  conn_sign_public_key_sha256 = zeros 32;
  packet_sign_public_key = zeros 32;
}

answer-IsClientHello : IsClientHello answer
answer-IsClientHello = record { unique_fits = omega arith; length_digest = refl; length_key = refl }

deserialize-serialize_unsigned_example :
    (wire : Bytes) × (serialize_unsigned (server_hello greeting) ≡ ok wire)
    × (deserialize toy 1 2 wire none none (some peer) false
        ≡ (ok (server_hello greeting), some peer))
deserialize-serialize_unsigned_example =
    deserialize-serialize_unsigned toy 1 2 none none (some peer) false (server_hello greeting)
      greeting-IsServerHello

deserialize-IsWritten_example :
    (serialize_unsigned (server_pubkey (8 ∷ 9 ∷ [])) ≡ ok (2 ∷ 8 ∷ 9 ∷ []))
    × IsUnsigned toy false (server_pubkey (8 ∷ 9 ∷ []))
deserialize-IsWritten_example =
    deserialize-IsWritten toy false 1 2 none none none (2 ∷ 8 ∷ 9 ∷ []) (server_pubkey (8 ∷ 9 ∷ []))
      (all_bytes-All (2 ∷ 8 ∷ 9 ∷ []) refl) tt (unfold deserialize in refl)

abbrev signed_answer : Bytes
signed_answer = seal 63 (78 ∷ []) ++ (0 ∷ 0 ∷ 0 ∷ 0 ∷ 0 ∷ 0 ∷ 0 ∷ 78 ∷ zeros 64)

deserialize-client_hello_iff_example :
    (deserialize toy 1 2 (type_client_hello ∷ signed_answer) (some 77) (some conn_checker) none true
      ≡ (ok (client_hello answer), none))
    ↔ IsSignedHello toy conn_checker 77 signed_answer answer
deserialize-client_hello_iff_example =
    deserialize-client_hello_iff toy 1 2 77 conn_checker none signed_answer answer
      (all_bytes-All signed_answer refl)

deserialize-serialize_conn_signed_example :
    (wire : Bytes) × (serialize_conn_signed toy (client_hello answer) conn_signer 77 ≡ ok wire)
    × (deserialize toy 1 2 wire (some 77) (some (verifier toy conn_signer)) (some peer) true
        ≡ (ok (client_hello answer), some peer))
    × (peek_client_hello toy wire true ≡ ok answer)
deserialize-serialize_conn_signed_example =
    deserialize-serialize_conn_signed toy toy_laws conn_signer 1 2 77 (some peer) answer
      (seal 1 (to_be_bytes 8 77 ++ encode_client_hello answer)) answer-IsClientHello refl

deserialize-serialize_packet_signed_example :
    (wire : Bytes) × ((serialize_packet_signed toy (payload (5 ∷ 6 ∷ [])) signer).0 ≡ ok wire)
    × (deserialize toy 12 13 wire none none (some peer) false ≡ (
      ok (payload (5 ∷ 6 ∷ [])),
      some (record peer {
        verify_counter = (serialize_packet_signed toy (payload (5 ∷ 6 ∷ [])) signer).1.sign_counter;
        last_success = 13;
      }),
    ))
unfolding PacketKey.public_key_bytes max_connection_idle
deserialize-serialize_packet_signed_example =
    deserialize-serialize_packet_signed toy toy_laws signer peer 12 13 none none false (5 ∷ 6 ∷ [])
      refl refl (omega arith)
