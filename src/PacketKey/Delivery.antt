-- ===== src/PacketKey/Delivery.antt =====
-- `PacketSign::sign` of src/lib.rs against `PacketVerify::verify`, when nothing is lost on the way.
use axsh.Prelude.{
  ℕ, ◌+◌, ◌%◌, ◌^◌, ◌≤◌, ◌≡◌, refl, sym, ap, ◌∙◌, Bytes, List, [], ◌∷◌, ◌++◌, Option, some, Result,
  ok,
}
use mathlib.Core.List.{map}
use axsh.Crypto.{Crypto, CryptoLaws}
use axsh.PacketKey.{
  packet_signature_input, max_connection_idle, PacketVerify, PacketSign, SignError, sign, verify,
  public_key_bytes,
}
use axsh.PacketKey.Verify.{IsAccepted-verify}
use axsh.PacketKey.Session.{Arrival, receive, sign_all}

-- Each call comes before the idle limit after the one before it.
abbrev pub InTime : ℕ → List Arrival → Type 0
InTime last [] = Unit
InTime last (a ∷ rest) = (a.now ≤ last + max_connection_idle) × InTime a.later rest

module _ (c : Crypto) (laws : CryptoLaws c) where
  pub sign_lem :
      (s : PacketSign c) (d : Bytes)
      → sign c s d ≡ (
        ok (c.ed25519_sign s.key_pair (packet_signature_input s.sign_counter d) ++ d),
        record s { sign_counter = (s.sign_counter + 1) % 2 ^ 64 },
      )
  unfolding sign
  sign_lem s d = rw (laws.length-ed25519_sign s.key_pair (packet_signature_input s.sign_counter d))

  -- A verifier that holds the signer's public key and counter returns the signed payload, and the two
  -- counters stay equal.
  pub verify-sign :
      (s : PacketSign c) (v : PacketVerify) (now later : ℕ) (d : Bytes)
      → v.public_key ≡ public_key_bytes c s
      → v.verify_counter ≡ s.sign_counter
      → now ≤ v.last_success + max_connection_idle
      → (wire : Bytes) × ((sign c s d).0 ≡ ok wire)
        × (verify c now later v wire ≡ (
          some d,
          record v { verify_counter = (sign c s d).1.sign_counter; last_success = later },
        ))
  unfolding public_key_bytes
  verify-sign s v now later d k n t = rw (sign_lem s d) (
    signature ++ d,
    refl,
    IsAccepted-verify c now later v (signature ++ d) d (record {
      signature = signature;
      length_signature = laws.length-ed25519_sign s.key_pair _;
      shape = refl;
      in_time = t;
      genuine = rw (k, n) (laws.ed25519_verify-sign s.key_pair _);
    })
        ∙ ap advanced n,
  )
    where
      advanced : ℕ → Option Bytes × PacketVerify
      advanced counter =
          (some d, record v { verify_counter = (counter + 1) % 2 ^ 64; last_success = later })

      signature : Bytes
      signature = c.ed25519_sign s.key_pair (packet_signature_input s.sign_counter d)

  -- Payloads that are signed one after the other, and arrive complete, in order and in time, are all
  -- returned.
  pub receive-sign_all :
      (payloads : List Bytes) (arrivals : List Arrival) (s : PacketSign c) (v : PacketVerify)
      → sign_all c s payloads ≡ map (λ a. ok a.bytes) arrivals
      → v.public_key ≡ public_key_bytes c s
      → v.verify_counter ≡ s.sign_counter
      → InTime v.last_success arrivals
      → receive c v arrivals ≡ payloads
  unfolding receive sign_all public_key_bytes
  receive-sign_all [] [] s v e k n t = refl
  receive-sign_all [] (a ∷ arrivals) s v e k n t = cc
  receive-sign_all (p ∷ payloads) [] s v e k n t = cc
  receive-sign_all (p ∷ payloads) (a ∷ arrivals) s v e k n t =
      let (wire, signed, verified) = verify-sign s v a.now a.later p k n t.0 in
      let s' = (sign c s p).1 in
      let v' = record v { verify_counter = s'.sign_counter; last_success = a.later } in
      let bytes : wire ≡ a.bytes = cc (signed, e) in
      let tail : sign_all c s' payloads ≡ map (λ a. ok a.bytes) arrivals = cc e in
      let same_key : s'.key_pair ≡ s.key_pair =
        ap (λ (r : Result SignError Bytes × PacketSign c). r.1.key_pair) (sign_lem s p) in
      rw (← bytes, verified)
        (ap (λ (t : List Bytes). p ∷ t)
          (receive-sign_all payloads arrivals s' v' tail
            (k ∙ ap c.ed25519_public_key (sym same_key)) refl t.1))
