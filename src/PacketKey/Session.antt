-- ===== src/PacketKey/Session.antt =====
-- The payload counters of src/lib.rs over a whole connection: a peer that signs one payload after the
-- other, and a verifier that is handed whatever arrives.
use axsh.Prelude.{
  ℕ, suc, ◌+◌, ◌%◌, ◌^◌, ◌≤◌, ◌<◌, ◌≡◌, refl, sym, ap, ◌∙◌, true, Bytes, length, drop, get_elem?,
  drop-get_elem?, append-injective,
}
use axsh.Prelude.{List, [], ◌∷◌, ◌++◌, arith, inl, inr, Option-cases, Option, none, some, Result}
use axsh.Prelude.Words.{to_be_bytes, length-to_be_bytes, to_be_bytes-injective}
use axsh.Crypto.{Crypto}
use axsh.PacketKey.{
  packet_signature_input, PacketVerify, new_verify, PacketSign, SignError, sign, verify,
}
use axsh.PacketKey.Verify.{IsAccepted, IsAccepted-verify, verify-IsAccepted, verify-rejected}

-- The counter and the message can be read off what is signed.
pub packet_signature_input-injective :
    (i j : ℕ) (m n : Bytes)
    → i < 2 ^ 64
    → j < 2 ^ 64
    → packet_signature_input i m ≡ packet_signature_input j n
    → (i ≡ j) × (m ≡ n)
unfolding packet_signature_input
packet_signature_input-injective i j m n h k e =
    let (a, b) =
      append-injective (to_be_bytes 8 i) (to_be_bytes 8 j) m n
        (length-to_be_bytes 8 i ∙ sym (length-to_be_bytes 8 j)) e in
    (to_be_bytes-injective 8 i j h k a, b)

-- One call of `verify`: its two times and its input.
pub record Arrival : Type 0 where
  pub now : ℕ
  pub later : ℕ
  pub bytes : Bytes

abbrev pub keep {ℓ} : {A : Type ℓ} → Option A → List A → List A
keep none xs = xs
keep (some x) xs = x ∷ xs

module _ (c : Crypto) where
  -- The messages that `verify` returns over a sequence of calls.
  unfoldable pub receive : PacketVerify → List Arrival → List Bytes
  receive v [] = []
  receive v (a ∷ rest) = let (r, v') = verify c a.now a.later v a.bytes in keep r (receive v' rest)

  -- The signed forms of a sequence of payloads.
  unfoldable pub sign_all : PacketSign c → List Bytes → List (Result SignError Bytes)
  sign_all s [] = []
  sign_all s (p ∷ rest) = let (r, s') = sign c s p in r ∷ sign_all s' rest

-- The peer has signed these payloads and nothing else: counter `i` with payload `i`.
abbrev pub Signed : List Bytes → Bytes → Type 0
Signed payloads input =
    (i : ℕ) × (p : Bytes) × (get_elem? payloads i ≡ some p) × (input ≡ packet_signature_input i p)

module _ (c : Crypto) (payloads : List Bytes) (key : Bytes) (count : length payloads < 2 ^ 64)
    (unforged : (input signature : Bytes)
      → c.ed25519_verify key input signature ≡ true
      → Signed payloads input) where
  pub next_payload :
      (now : ℕ) (v : PacketVerify) (d m : Bytes)
      → v.public_key ≡ key
      → v.verify_counter ≤ length payloads
      → IsAccepted c now v d m
      → get_elem? payloads v.verify_counter ≡ some m
  next_payload now v d m k n a =
      let (i, p, at, input) = unforged _ a.signature (rw k at a.genuine) in
      let (_, below) = drop-get_elem? payloads i at in
      let (same, msg) =
        packet_signature_input-injective v.verify_counter i m p (omega arith) (omega arith) input in
      rw (same, msg) at

  receive_prefix :
      (arrivals : List Arrival) (v : PacketVerify)
      → v.public_key ≡ key
      → v.verify_counter ≤ length payloads
      → (rest : List Bytes) × (receive c v arrivals ++ rest ≡ drop v.verify_counter payloads)
  unfolding receive
  receive_prefix [] v k n = (drop v.verify_counter payloads, refl)
  receive_prefix (a ∷ arrivals) v k n = elim (Option-cases (verify c a.now a.later v a.bytes).0) [
    | inl rejected ↦
        rw (rejected, verify-rejected c a.now a.later v a.bytes rejected)
          (receive_prefix arrivals v k n)
    | inr (m, returned) ↦
        let acc = verify-IsAccepted c a.now a.later v a.bytes m returned in
        let v1 = record v {
          verify_counter = (v.verify_counter + 1) % 2 ^ 64;
          last_success = a.later;
        } in
        let (here, below) =
          drop-get_elem? payloads v.verify_counter (next_payload a.now v a.bytes m k n acc) in
        let advance : v1.verify_counter ≡ suc v.verify_counter = omega arith in
        let (rest, e) = receive_prefix arrivals v1 k (omega arith) in
        rw (IsAccepted-verify c a.now a.later v a.bytes m acc) (
          rest,
          ap (λ (t : List Bytes). m ∷ t) (e ∙ ap (λ (n : ℕ). drop n payloads) advance) ∙ sym here,
        )
  ]

  -- If every input that verifies under the peer's key was signed by the peer, with counter `i` for its
  -- payload `i`, then the messages that a new verifier returns, whatever bytes arrive in whatever order
  -- and as often as may be, are the payloads from the first on, in order, without gap or repetition.
  pub receive-IsPrefix :
      (start : ℕ) (arrivals : List Arrival)
      → (rest : List Bytes) × (receive c (new_verify start key) arrivals ++ rest ≡ payloads)
  unfolding new_verify
  receive-IsPrefix start arrivals =
      receive_prefix arrivals (new_verify start key) refl (omega arith)
