-- ===== src/Packet/Verifier.antt =====
-- src/packet.rs: what `Packet::deserialize` does to the packet verifier.
use axsh.Prelude.{
  ℕ, ◌+◌, ◌%◌, ◌^◌, ◌≡◌, ◌⊎◌, inl, inr, refl, ap, Bool, Bytes, [], ◌∷◌, is_empty, Option, some,
  ◌==◌, if_elim, if◌then◌else◌, Bool-cases, ==→eq, sym, Result, ok, err, ◌>>=◌, ensure, ok_or,
}
use mathlib.Core.Path.{subst}
use axsh.Crypto.{Crypto}
use axsh.ConnKey.{ConnVerify}
use axsh.PacketKey.{PacketVerify}
use axsh.PacketKey.Verify.{IsAccepted, verify_cases}
use axsh.Packet.Hello.{
  PacketError, decode_server_hello, request_trailing_bytes, missing_server_unique,
  missing_conn_verifier, unknown_packet_type,
}
use axsh.Packet.Wire.{
  Packet, server_hello, request_server_pubkey, server_pubkey, client_hello, server_complete,
  payload, type_server_hello, type_request_server_pubkey, type_server_pubkey, type_client_hello,
  type_server_complete, type_payload, verify_conn_signed, peek_client_hello, returned,
  decode_server_complete, deserialize_client_hello, deserialize_payload, deserialize,
}

-- An error, or a packet of another kind.
abbrev pub NoPayload : Result PacketError Packet → Type 0
NoPayload (err e) = Unit
NoPayload (ok (server_hello h)) = Unit
NoPayload (ok request_server_pubkey) = Unit
NoPayload (ok (server_pubkey key)) = Unit
NoPayload (ok (client_hello h)) = Unit
NoPayload (ok (server_complete s)) = Unit
NoPayload (ok (payload d)) = ⊥

>>=-NoPayload :
    {A : Type 0} (m : Result PacketError A) (f : A → Result PacketError Packet)
    → ((a : A) → NoPayload (f a))
    → NoPayload (m >>= f)
>>=-NoPayload (ok a) f h = h a
>>=-NoPayload (err e) f h = tt

module _ (c : Crypto) (now later : ℕ) (v : PacketVerify) where
  -- Nothing was accepted and the verifier is as it was; or the payload behind the type byte was, and
  -- the verifier has moved on.
  abbrev pub Outcome : Bytes → Result PacketError Packet × Option PacketVerify → Type 0
  Outcome d r =
      ((r.1 ≡ some v) × NoPayload r.0)
      ⊎ ((m : Bytes) × (rest : Bytes) × (d ≡ type_payload ∷ rest)
          × IsAccepted c now v rest m
          × (r ≡ (
            ok (payload m),
            some (record v {
              verify_counter = (v.verify_counter + 1) % 2 ^ 64;
              last_success = later;
            }),
          )))

  payload-Outcome :
      (rest : Bytes) → Outcome (type_payload ∷ rest) (deserialize_payload c now later rest (some v))
  unfolding deserialize_payload
  payload-Outcome rest = elim (verify_cases c now later v rest) [
    | inl (e, _) ↦ rw e (inl (refl, tt))
    | inr (m, e, a) ↦ inr (m, rest, refl, a, ap returned e)
  ]

  if_payload :
      (t : ℕ) (rest : Bytes)
      → Outcome (t ∷ rest) (
          if t == type_payload
          then deserialize_payload c now later rest (some v)
          else (err (unknown_packet_type t), some v))
  if_payload t rest = elim (Bool-cases (t == type_payload)) [
    | inl same ↦ rw same (
        subst (λ (x : ℕ). Outcome (x ∷ rest) (deserialize_payload c now later rest (some v)))
          (sym (==→eq t type_payload same)) (payload-Outcome rest))
    | inr other ↦ rw other (inl (refl, tt))
  ]

  hello-NoPayload :
      (rest : Bytes) (u : Option ℕ) (cv : Option ConnVerify) (q : Bool)
      → NoPayload (deserialize_client_hello c rest u cv q)
  unfolding deserialize_client_hello
  hello-NoPayload rest u cv q =
      >>=-NoPayload (peek_client_hello c (type_client_hello ∷ rest) q) _ (λ h.
        >>=-NoPayload (ok_or u missing_server_unique) _ (λ n.
          >>=-NoPayload (ok_or cv missing_conn_verifier) _
            (λ w. >>=-NoPayload (verify_conn_signed c rest n w) _ (λ m. tt))))

  -- On any bytes, either the packet verifier is left as it was and the result is an error or another
  -- packet than a payload; or the bytes are the type byte of a payload and then bytes that the verifier
  -- accepts as the next payload of the peer, this payload is the result, and the verifier has advanced.
  pub deserialize-Outcome :
      (d : Bytes) (u : Option ℕ) (cv : Option ConnVerify) (q : Bool)
      → Outcome d (deserialize c now later d u cv (some v) q)
  unfolding deserialize
  deserialize-Outcome [] u cv q = inl (refl, tt)
  deserialize-Outcome (t ∷ rest) u cv q =
      let Here = Outcome (t ∷ rest) in
      if_elim Here (t == type_server_hello)
        (inl (refl, >>=-NoPayload (decode_server_hello rest) _ (λ h. tt)))
        (if_elim Here (t == type_request_server_pubkey)
          (inl (refl, >>=-NoPayload (ensure (is_empty rest) request_trailing_bytes) _ (λ h. tt)))
          (if_elim Here (t == type_server_pubkey) (inl (refl, tt)) (
            if_elim Here (t == type_client_hello) (inl (refl, hello-NoPayload rest u cv q)) (
              if_elim Here (t == type_server_complete)
                (inl (refl, >>=-NoPayload (decode_server_complete c rest q) _ (λ s. tt)))
                (if_payload t rest)))))
