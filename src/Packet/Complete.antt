-- ===== src/Packet/Complete.antt =====
-- src/packet.rs: the lengths of the packets of the server that `deserialize` returns.
use axsh.Prelude.{
  ℕ, suc, ◌≡◌, refl, ap, ◌∙◌, sym, Bool, Bytes, length, [], ◌∷◌, is_empty, Option, none, some, ◌==◌,
  ==→eq, if_elim, Result, ok, err, ◌>>=◌, ensure, ensure-ok, bind-ok, ok-injective, ok_or,
}
use axsh.Crypto.{Crypto}
use axsh.ConnKey.{ConnVerify, conn_signature_len}
use axsh.PacketKey
use axsh.PacketKey.{PacketVerify}
use axsh.Packet.Hello.{
  PacketError, decode_server_hello, request_trailing_bytes, missing_server_unique,
  missing_conn_verifier, bad_signature_length,
}
use axsh.Packet.Lengths.{decode_server_hello-length}
use axsh.Packet.Wire.{
  Packet, server_hello, request_server_pubkey, server_pubkey, client_hello, server_complete,
  payload, type_server_hello, type_request_server_pubkey, type_server_pubkey, type_client_hello,
  type_server_complete, type_payload, returned, decode_server_complete, peek_client_hello,
  verify_conn_signed, deserialize_client_hello, deserialize_payload, deserialize,
}

-- Of a packet that was read from a wire of `n` bytes.
module _ (c : Crypto) (q : Bool) (n : ℕ) where
  abbrev pub HasLength : Result PacketError Packet → Type 0
  HasLength (err e) = Unit
  HasLength (ok (server_hello h)) = n ≡ 78
  HasLength (ok request_server_pubkey) = Unit
  HasLength (ok (server_pubkey key)) = Unit
  HasLength (ok (client_hello h)) = Unit
  HasLength (ok (server_complete signature)) = length signature ≡ conn_signature_len c q
  HasLength (ok (payload d)) = Unit

  >>=-HasLength :
      {A : Type 0} (m : Result PacketError A) (f : A → Result PacketError Packet)
      → ((a : A) → m ≡ ok a → HasLength (f a))
      → HasLength (m >>= f)
  >>=-HasLength (ok a) f h = h a refl
  >>=-HasLength (err e) f h = tt

  client_hello-HasLength :
      (rest : Bytes) (u : Option ℕ) (cv : Option ConnVerify)
      → HasLength (deserialize_client_hello c rest u cv q)
  unfolding deserialize_client_hello
  client_hello-HasLength rest u cv =
      >>=-HasLength (peek_client_hello c (type_client_hello ∷ rest) q) _ (λ h _.
        >>=-HasLength (ok_or u missing_server_unique) _ (λ k _.
          >>=-HasLength (ok_or cv missing_conn_verifier) _
            (λ v _. >>=-HasLength (verify_conn_signed c rest k v) _ (λ m _. tt))))

  server_complete-HasLength :
      (rest : Bytes) → HasLength (decode_server_complete c rest q >>= λ s. ok (server_complete s))
  unfolding decode_server_complete
  server_complete-HasLength rest = >>=-HasLength (decode_server_complete c rest q) _ (λ s e.
      let (_, e1, f1) =
        bind-ok (ensure (length rest == conn_signature_len c q) bad_signature_length) _ e in
      ap (λ (t : Bytes). length t) (sym (ok-injective f1))
      ∙ ==→eq (length rest) (conn_signature_len c q) (ensure-ok _ _ e1))

  returned-HasLength : (r : Option Bytes × PacketVerify) → HasLength (returned r).0
  returned-HasLength (none, v) = tt
  returned-HasLength (some d, v) = tt

  payload-HasLength :
      (now later : ℕ) (rest : Bytes) (pv : Option PacketVerify)
      → HasLength (deserialize_payload c now later rest pv).0
  unfolding deserialize_payload
  payload-HasLength now later rest none = tt
  payload-HasLength now later rest (some v) =
      returned-HasLength (PacketKey.verify c now later v rest)

module _ (c : Crypto) (q : Bool) where
  -- Whatever the bytes and the verifiers are.
  pub deserialize-HasLength :
      (now later : ℕ) (d : Bytes) (u : Option ℕ) (cv : Option ConnVerify) (pv : Option PacketVerify)
      → HasLength c q (length d) (deserialize c now later d u cv pv q).0
  unfolding deserialize
  deserialize-HasLength now later [] u cv pv = tt
  deserialize-HasLength now later (t ∷ rest) u cv pv =
      if_elim Good (t == type_server_hello)
        (>>=-HasLength c q n (decode_server_hello rest) _
          (λ h e. ap suc (decode_server_hello-length rest h e)))
        (if_elim Good (t == type_request_server_pubkey)
          (>>=-HasLength c q n (ensure (is_empty rest) request_trailing_bytes) _ (λ h _. tt))
          (if_elim Good (t == type_server_pubkey) tt (
            if_elim Good (t == type_client_hello) (client_hello-HasLength c q n rest u cv) (
              if_elim Good (t == type_server_complete) (server_complete-HasLength c q n rest) (
                if_elim Good (t == type_payload) (payload-HasLength c q n now later rest pv) tt)))))
    where
      n : ℕ
      n = suc (length rest)

      Good : Result PacketError Packet × Option PacketVerify → Type 0
      Good r = HasLength c q n r.0
