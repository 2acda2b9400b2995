-- ===== src/Packet/Unsigned.antt =====
-- src/packet.rs: the bytes that `deserialize` reads as an unsigned packet are what it serialises to.
use axsh.Packet.Inverse.{decode_server_hello_sound}
use axsh.Prelude.{some, none, ==→eq, ok_or, Bool, Option, ◌>>◌, Bool-cases, inl, inr}
use axsh.Crypto.{Crypto}
use axsh.ConnKey.{ConnVerify, conn_signature_len}
use axsh.PacketKey
use axsh.PacketKey.{PacketVerify}
use axsh.Packet.Hello.{
  missing_server_unique, missing_conn_verifier, request_trailing_bytes, bad_signature_length,
}
use axsh.Packet.Wire.{
  Packet, server_hello, request_server_pubkey, server_pubkey, client_hello, server_complete,
  payload, type_server_hello, type_request_server_pubkey, type_server_pubkey, type_server_complete,
  serialize_unsigned, decode_server_complete, deserialize, deserialize_client_hello,
  deserialize_payload, type_client_hello, type_payload, peek_client_hello, verify_conn_signed,
  returned,
}
use axsh.Packet.RoundTrip.{IsUnsigned}
use axsh.Prelude.{
  ℕ, ◌≡◌, refl, sym, ap, Bytes, IsByte, All, length, is_empty, is_empty→nil, [], ◌∷◌, ◌==◌, Result,
  ok, ◌>>=◌, bind-ok, ensure, ensure-ok, ok-injective,
}
use mathlib.Core.Path.{subst}
use axsh.Packet.Hello.{PacketError, decode_server_hello}

-- `d` is what the unsigned packet `p` is written as.
abbrev pub IsWritten : Crypto → Bool → Bytes → Packet → Type 0
IsWritten c q d p = (serialize_unsigned p ≡ ok d) × IsUnsigned c q p

-- The kinds of packet that are neither a `ClientHello` nor a `Payload`.
abbrev pub GoesUnsigned : Packet → Type 0
GoesUnsigned (server_hello h) = Unit
GoesUnsigned request_server_pubkey = Unit
GoesUnsigned (server_pubkey key) = Unit
GoesUnsigned (server_complete signature) = Unit
GoesUnsigned (client_hello h) = ⊥
GoesUnsigned (payload d) = ⊥

module _ (c : Crypto) (q : Bool) where
  server_hello-IsWritten :
      (rest : Bytes) (p : Packet)
      → All IsByte rest
      → (decode_server_hello rest >>= λ h. ok (server_hello h)) ≡ ok p
      → IsWritten c q (type_server_hello ∷ rest) p
  unfolding serialize_unsigned
  server_hello-IsWritten rest p b e =
      let (h, e1, f1) = bind-ok (decode_server_hello rest) _ e in
      let (s, v) = decode_server_hello_sound rest h b e1 in
      subst (IsWritten c q (type_server_hello ∷ rest)) {x = server_hello h} (ok-injective f1)
        (ap (λ (t : Bytes). ok (type_server_hello ∷ t)) (sym s), v)

  request-IsWritten :
      (rest : Bytes) (p : Packet)
      → (ensure (is_empty rest) request_trailing_bytes >> ok request_server_pubkey) ≡ ok p
      → IsWritten c q (type_request_server_pubkey ∷ rest) p
  unfolding serialize_unsigned
  request-IsWritten rest p e =
      let (_, e1, f1) = bind-ok (ensure (is_empty rest) request_trailing_bytes) _ e in
      subst (IsWritten c q (type_request_server_pubkey ∷ rest)) {x = request_server_pubkey}
        (ok-injective f1)
        (
          ap (λ (t : Bytes). ok (type_request_server_pubkey ∷ t))
              (sym (is_empty→nil rest (ensure-ok _ _ e1))),
          tt,
        )

  server_pubkey-IsWritten :
      (rest : Bytes) (p : Packet)
      → ◌≡◌ {A = Result PacketError Packet} (ok (server_pubkey rest)) (ok p)
      → IsWritten c q (type_server_pubkey ∷ rest) p
  unfolding serialize_unsigned
  server_pubkey-IsWritten rest p e =
      subst (IsWritten c q (type_server_pubkey ∷ rest)) {x = server_pubkey rest} (ok-injective e)
        (refl, tt)

  server_complete-IsWritten :
      (rest : Bytes) (p : Packet)
      → (decode_server_complete c rest q >>= λ s. ok (server_complete s)) ≡ ok p
      → IsWritten c q (type_server_complete ∷ rest) p
  unfolding serialize_unsigned decode_server_complete
  server_complete-IsWritten rest p e =
      let (s, e1, f1) = bind-ok (decode_server_complete c rest q) _ e in
      let (_, e2, f2) =
        bind-ok (ensure (length rest == conn_signature_len c q) bad_signature_length) _ e1 in
      let len : length rest ≡ conn_signature_len c q =
        ==→eq (length rest) (conn_signature_len c q) (ensure-ok _ _ e2) in
      let same : rest ≡ s = ok-injective f2 in
      subst (IsWritten c q (type_server_complete ∷ rest)) {x = server_complete s} (ok-injective f1)
        (ap (λ (t : Bytes). ok (type_server_complete ∷ t)) (sym same), rw same at len)

  -- The two other arms return no packet of another kind than their own.
  client_hello-kind :
      (rest : Bytes) (u : Option ℕ) (cv : Option ConnVerify) (p : Packet)
      → GoesUnsigned p
      → ¬ (deserialize_client_hello c rest u cv q ≡ ok p)
  unfolding deserialize_client_hello
  client_hello-kind rest u cv p g e =
      let (h, _, f1) = bind-ok (peek_client_hello c (type_client_hello ∷ rest) q) _ e in
      let (n, _, f2) = bind-ok (ok_or u missing_server_unique) _ f1 in
      let (v, _, f3) = bind-ok (ok_or cv missing_conn_verifier) _ f2 in
      let (m, _, f4) = bind-ok (verify_conn_signed c rest n v) _ f3 in
      subst GoesUnsigned (sym (ok-injective f4)) g

  returned-kind :
      (r : Option Bytes × PacketVerify) (p : Packet) → GoesUnsigned p → ¬ ((returned r).0 ≡ ok p)
  returned-kind (none, v) p g e = cc e
  returned-kind (some d, v) p g e = subst GoesUnsigned (sym (ok-injective e)) g

  payload-kind :
      (now later : ℕ) (rest : Bytes) (pv : Option PacketVerify) (p : Packet)
      → GoesUnsigned p
      → ¬ ((deserialize_payload c now later rest pv).0 ≡ ok p)
  unfolding deserialize_payload
  payload-kind now later rest none p g e = cc e
  payload-kind now later rest (some v) p g e =
      returned-kind (PacketKey.verify c now later v rest) p g e

  -- Bytes that deserialize to a packet of an unsigned kind are the bytes that this packet serialises
  -- to: there is one encoding of it, and its fields fit their Rust types.
  pub deserialize-IsWritten :
      (now later : ℕ) (u : Option ℕ) (cv : Option ConnVerify) (pv : Option PacketVerify) (d : Bytes)
      (p : Packet)
      → All IsByte d
      → GoesUnsigned p
      → (deserialize c now later d u cv pv q).0 ≡ ok p
      → (serialize_unsigned p ≡ ok d) × IsUnsigned c q p
  unfolding deserialize
  deserialize-IsWritten now later u cv pv [] p b g e = cc e
  deserialize-IsWritten now later u cv pv (t ∷ rest) p b g e =
      elim (Bool-cases (t == type_server_hello)) [
        | inl t0 ↦ at_type (==→eq t _ t0) (server_hello-IsWritten rest p b.1 (rw t0 at e))
        | inr f0 ↦ elim (Bool-cases (t == type_request_server_pubkey)) [
          | inl t1 ↦ at_type (==→eq t _ t1) (request-IsWritten rest p (rw (f0, t1) at e))
          | inr f1 ↦ elim (Bool-cases (t == type_server_pubkey)) [
            | inl t2 ↦
                at_type (==→eq t _ t2) (server_pubkey-IsWritten rest p (rw (f0, f1, t2) at e))
            | inr f2 ↦ elim (Bool-cases (t == type_client_hello)) [
              | inl t3 ↦ absurd (client_hello-kind rest u cv p g (rw (f0, f1, f2, t3) at e))
              | inr f3 ↦ elim (Bool-cases (t == type_server_complete)) [
                | inl t4 ↦
                    at_type (==→eq t _ t4)
                      (server_complete-IsWritten rest p (rw (f0, f1, f2, f3, t4) at e))
                | inr f4 ↦ elim (Bool-cases (t == type_payload)) [
                  | inl t5 ↦
                      absurd (payload-kind now later rest pv p g (rw (f0, f1, f2, f3, f4, t5) at e))
                  | inr f5 ↦ cc (rw (f0, f1, f2, f3, f4, f5) at e)
                ]
              ]
            ]
          ]
        ]
      ]
    where
      at_type : {k : ℕ} → t ≡ k → IsWritten c q (k ∷ rest) p → IsWritten c q (t ∷ rest) p
      at_type s w = subst (λ (k : ℕ). IsWritten c q (k ∷ rest) p) (sym s) w
