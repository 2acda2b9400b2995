-- ===== src/ConnKey/Runs.antt =====
-- Runs of `ConnSign` and `ConnVerify` of src/lib.rs with toy signatures, and the theorems at
-- concrete inputs.
use axsh.Prelude.{◌≡◌, refl, true, false, Bytes, [], ◌∷◌, ◌++◌, some, ok, arith}
use mathlib.Core.Logic.{◌↔◌}
use axsh.Crypto.Toy.{toy, toy_laws, seal, zeros}
use axsh.ConnKey.{
  ConnSign, ConnVerify, new_sign, file_bytes, from_bytes, build, sign, sign_detached, sign_prefixed,
  verifier, verify, verify_detached, verify_prefixed,
}
use axsh.ConnKey.Verify.{IsSigned, verify_prefixed_iff}
use axsh.ConnKey.Sign.{conn_verify-sign}
use axsh.ConnKey.Load.{from_bytes-file_bytes}

abbrev signer : ConnSign toy
signer = record {
  ml_dsa_key_pair = tt;
  ed25519_key_pair = tt;
  ml_dsa_pkcs8 = 1 ∷ [];
  ed25519_pkcs8 = 2 ∷ [];
  quantum_insecure = false;
}

abbrev checker : ConnVerify
checker = record { public_key_bundle = 1 ∷ (5 ∷ zeros 32); quantum_insecure = false }

abbrev signed_hi : Bytes
signed_hi = seal 1 (104 ∷ 105 ∷ []) ++ (seal 63 (104 ∷ 105 ∷ []) ++ (104 ∷ 105 ∷ []))

verify_prefixed_iff_example :
    (verify_prefixed toy checker (7 ∷ []) signed_hi ≡ some (104 ∷ 105 ∷ [])) ↔ (
      (sig : Bytes) × (signed_hi ≡ sig ++ (104 ∷ 105 ∷ []))
      × IsSigned toy checker sig ((7 ∷ []) ++ (104 ∷ 105 ∷ [])))
verify_prefixed_iff_example = verify_prefixed_iff toy checker (7 ∷ []) signed_hi (104 ∷ 105 ∷ [])

conn_verify-sign_example :
    (sig : Bytes) × (sign toy signer ((7 ∷ []) ++ (104 ∷ []))
      ≡ ok (sig ++ ((7 ∷ []) ++ (104 ∷ []))))
    × (sign_detached toy signer ((7 ∷ []) ++ (104 ∷ [])) ≡ ok sig)
    × (sign_prefixed toy signer (7 ∷ []) (104 ∷ []) ≡ ok (sig ++ (104 ∷ [])))
    × (verify toy (verifier toy signer) (sig ++ ((7 ∷ []) ++ (104 ∷ [])))
        ≡ some ((7 ∷ []) ++ (104 ∷ [])))
    × (verify_detached toy (verifier toy signer) sig ((7 ∷ []) ++ (104 ∷ [])) ≡ true)
    × (verify_prefixed toy (verifier toy signer) (7 ∷ []) (sig ++ (104 ∷ [])) ≡ some (104 ∷ []))
conn_verify-sign_example =
    conn_verify-sign toy toy_laws signer (7 ∷ []) (104 ∷ []) (seal 1 (7 ∷ 104 ∷ [])) refl

from_bytes-file_bytes_example :
    (s : ConnSign toy) × (file : Bytes) × (new_sign toy (some tt) (some tt) ≡ ok s)
    × (file_bytes toy s ≡ ok file)
    × (from_bytes toy file ≡ ok s)
    × (build toy true file ≡ ok (record s { quantum_insecure = true }))
from_bytes-file_bytes_example =
    from_bytes-file_bytes toy toy_laws tt tt true (omega arith) (omega arith)
