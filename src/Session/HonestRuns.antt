-- ===== src/Session/HonestRuns.antt =====
-- The theorem on honest peers, at toy signatures and a client that asks for the server's key.
use axsh.Prelude.{◌≡◌, refl, false, Bytes, [], ◌∷◌, Option, none, some, Result, ok, arith}
use axsh.Crypto.Toy.{toy, toy_laws, seal, zeros}
use axsh.Bundle.{encode_conn_public_key}
use axsh.Handshake.{HandshakeError}
use axsh.ConnKey.{ConnSign, public_key_bytes}
use axsh.Packet.Hello.{ServerHello}
use axsh.Session.Answers.{Signs}
use axsh.Session.Honest.{Connected, honest-Connected}

abbrev host_key : ConnSign toy
host_key = record {
  ml_dsa_key_pair = tt;
  ed25519_key_pair = tt;
  ml_dsa_pkcs8 = 1 ∷ [];
  ed25519_pkcs8 = 2 ∷ [];
  quantum_insecure = false;
}

abbrev authorized : Bytes → Option Bytes
authorized digest = some (1 ∷ (5 ∷ zeros 32))

abbrev lookup : ServerHello → Result HandshakeError (Option Bytes)
lookup hello = ok none

abbrev accept : ServerHello → Bytes → Result HandshakeError (Unit {0})
accept hello key = ok tt

toy_signs : Signs toy host_key
toy_signs = (λ m. (seal 1 m, refl), omega arith, omega arith)

host_authorized :
    authorized (toy.sha256 (public_key_bytes toy host_key)) ≡ some (public_key_bytes toy host_key)
unfolding public_key_bytes encode_conn_public_key
host_authorized = refl

honest-Connected_example :
    Connected toy toy_laws host_key host_key toy_signs toy_signs refl authorized host_authorized
      false lookup accept
      (λ h. refl)
      (λ h. refl)
      tt
      tt
      7
      8
      (omega arith)
      (omega arith)
      1
      2
      []
      []
honest-Connected_example =
    honest-Connected toy toy_laws host_key host_key toy_signs toy_signs refl authorized
      host_authorized false lookup accept (λ h. refl) (λ h. refl) tt tt 7 8 (omega arith)
      (omega arith) 1 2 [] []
