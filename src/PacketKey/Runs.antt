-- ===== src/PacketKey/Runs.antt =====
-- Runs of `PacketSign` and `PacketVerify` of src/lib.rs with toy signatures, and the theorems at
-- concrete inputs.
use axsh.Prelude.{
  ◌≡◌, refl, ◌+◌, ◌%◌, ◌^◌, ◌⊎◌, Bytes, bytes_eq, bytes_eq→eq, List, [], ◌∷◌, ◌++◌, some, none, ok,
  true, arith,
}
use mathlib.Core.List.{map}
use axsh.Crypto.{Crypto}
use axsh.Crypto.Toy.{toy, toy_laws, seal, zeros}
use axsh.PacketKey.{
  packet_signature_input, max_connection_idle, PacketSign, PacketVerify, new_verify, sign, verify,
  public_key_bytes,
}
use axsh.PacketKey.Verify.{IsAccepted, verify_cases}
use axsh.PacketKey.Session.{Arrival, Signed, receive, receive-IsPrefix, sign_all}
use axsh.PacketKey.Delivery.{receive-sign_all}

abbrev signer : PacketSign toy
signer = record { key_pair = tt; sign_counter = 0 }

abbrev peer : PacketVerify
peer = record { last_success = 10; public_key = zeros 32; verify_counter = 0 }

abbrev first_wire : Bytes
first_wire = seal 63 (packet_signature_input 0 (5 ∷ [])) ++ (5 ∷ [])

abbrev second_wire : Bytes
second_wire = seal 63 (packet_signature_input 1 (6 ∷ 6 ∷ [])) ++ (6 ∷ 6 ∷ [])

abbrev arrivals : List Arrival
arrivals =
    record { now = 11; later = 12; bytes = first_wire }
    ∷ (record { now = 20; later = 21; bytes = second_wire } ∷ [])

sign_arrivals :
    sign_all toy signer ((5 ∷ []) ∷ ((6 ∷ 6 ∷ []) ∷ [])) ≡ map (λ a. ok a.bytes) arrivals
unfolding sign_all sign
sign_arrivals = refl

verify_cases_example :
    ((verify toy 11 12 peer first_wire ≡ (none, peer))
      × ¬ ((m : Bytes) × IsAccepted toy 11 peer first_wire m))
    ⊎ ((m : Bytes) × (verify toy 11 12 peer first_wire ≡ (
      some m,
      record peer { verify_counter = (peer.verify_counter + 1) % 2 ^ 64; last_success = 12 },
    ))
        × IsAccepted toy 11 peer first_wire m)
verify_cases_example = verify_cases toy 11 12 peer first_wire

receive-sign_all_example : receive toy peer arrivals ≡ (5 ∷ []) ∷ ((6 ∷ 6 ∷ []) ∷ [])
receive-sign_all_example =
    receive-sign_all toy toy_laws ((5 ∷ []) ∷ ((6 ∷ 6 ∷ []) ∷ [])) arrivals signer peer
      sign_arrivals (unfold public_key_bytes in refl) refl
      (unfold max_connection_idle in (omega arith, (omega arith, tt)))

-- A peer that has signed the one payload `5`, with any signature.
abbrev one_payload : Crypto
one_payload = record toy {
  ed25519_verify = λ key m s. bytes_eq m (packet_signature_input 0 (5 ∷ []));
}

one_payload-Signed :
    (input signature : Bytes)
    → one_payload.ed25519_verify (zeros 32) input signature ≡ true
    → Signed ((5 ∷ []) ∷ []) input
one_payload-Signed input signature e =
    (0, 5 ∷ [], refl, bytes_eq→eq input (packet_signature_input 0 (5 ∷ [])) e)

-- The same bytes, twice.
receive-IsPrefix_example :
    (rest : List Bytes) × (receive one_payload (new_verify 0 (zeros 32)) (
          record { now = 1; later = 1; bytes = first_wire }
          ∷ (record { now = 2; later = 2; bytes = first_wire } ∷ []))
        ++ rest
      ≡ (5 ∷ []) ∷ [])
receive-IsPrefix_example =
    receive-IsPrefix one_payload ((5 ∷ []) ∷ []) (zeros 32) (omega arith) one_payload-Signed 0 (
      record { now = 1; later = 1; bytes = first_wire }
      ∷ (record { now = 2; later = 2; bytes = first_wire } ∷ []))
