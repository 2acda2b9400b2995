-- ===== src/PacketKey/Verify.antt =====
-- One call of `PacketVerify::verify` of src/lib.rs: what it accepts, and the state that it leaves.
use axsh.Prelude.{
  ℕ, ◌+◌, ◌-◌, ◌%◌, ◌^◌, ◌≤◌, ◌≡◌, sym, ap, Bool, true, false, Bytes, length, length-append,
  length-take, take, drop, take-append, drop-append, take-append-drop,
}
use axsh.Prelude.{
  ◌++◌, arith, ltb, ltb-false, le→ltb, Bool-cases, ◌⊎◌, inl, inr, Option-cases, ◌∙◌, Option, none,
  some,
}
use axsh.Crypto.{Crypto}
use axsh.PacketKey.{packet_signature_input, max_connection_idle, PacketVerify, verify}

-- An accepted input: a signature of 64 bytes by the peer's key over the expected counter and the
-- message, then the message, in time.
pub record IsAccepted (c : Crypto) (now : ℕ) (v : PacketVerify) (d m : Bytes) : Type 0 where
  pub signature : Bytes
  pub length_signature : length signature ≡ 64
  pub shape : d ≡ signature ++ m
  pub in_time : now ≤ v.last_success + max_connection_idle
  pub genuine :
      c.ed25519_verify v.public_key (packet_signature_input v.verify_counter m) signature ≡ true

module _ (c : Crypto) (now later : ℕ) (v : PacketVerify) where
  abbrev genuine_test : Bytes → Bool
  genuine_test d =
      c.ed25519_verify v.public_key (packet_signature_input v.verify_counter (drop 64 d))
        (take 64 d)

  pub verify-IsAccepted :
      (d m : Bytes) → (verify c now later v d).0 ≡ some m → IsAccepted c now v d m
  unfolding verify
  verify-IsAccepted d m e = elim (Bool-cases (ltb (length d) 64)) [
    | inl short ↦ cc (rw short at e)
    | inr long ↦ elim (Bool-cases (ltb max_connection_idle (now - v.last_success))) [
      | inl idle ↦ cc (rw (long, idle) at e)
      | inr busy ↦ elim (Bool-cases (genuine_test d)) [
        | inl genuine ↦
            let msg : drop 64 d ≡ m = cc (rw (long, busy, genuine) at e) in
            record {
              signature = take 64 d;
              length_signature = omega (arith, length-take 64 d, ltb-false _ _ long);
              shape = rw (← msg) (sym (take-append-drop 64 d));
              in_time = omega (arith, ltb-false _ _ busy);
              genuine = rw (← msg) genuine;
            }
        | inr forged ↦ cc (rw (long, busy, forged) at e)
      ]
    ]
  ]

  pub IsAccepted-verify :
      (d m : Bytes)
      → IsAccepted c now v d m
      → verify c now later v d ≡ (
        some m,
        record v { verify_counter = (v.verify_counter + 1) % 2 ^ 64; last_success = later },
      )
  unfolding verify
  IsAccepted-verify d m a =
      let n : length (a.signature ++ m) ≡ length a.signature + length m =
        length-append a.signature m in
      let long : ltb (length (a.signature ++ m)) 64 ≡ false =
        le→ltb _ _ (omega (arith, a.length_signature)) in
      let busy : ltb max_connection_idle (now - v.last_success) ≡ false =
        le→ltb _ _ (omega (arith, a.in_time)) in
      rw (
        a.shape,
        long,
        busy,
        take-append 64 a.signature m a.length_signature,
        drop-append 64 a.signature m a.length_signature,
        a.genuine,
      )

  pub verify-rejected :
      (d : Bytes) → (verify c now later v d).0 ≡ none → (verify c now later v d).1 ≡ v
  unfolding verify
  verify-rejected d e = ground arith

  -- On any input, either `verify` returns nothing, leaves the verifier as it was, and the input is
  -- no accepted one; or it returns the message of an accepted input, and advances the counter and the
  -- time of the last success.
  pub verify_cases :
      (d : Bytes)
      → ((verify c now later v d ≡ (none, v)) × ¬ ((m : Bytes) × IsAccepted c now v d m))
        ⊎ ((m : Bytes) × (verify c now later v d ≡ (
          some m,
          record v { verify_counter = (v.verify_counter + 1) % 2 ^ 64; last_success = later },
        ))
            × IsAccepted c now v d m)
  verify_cases d = elim (Option-cases (verify c now later v d).0) [
    | inl e ↦ inl (
      pair-eq (verify c now later v d) e (verify-rejected d e),
      λ (m, a).
          none-ne-some
            (sym e ∙ ap (λ (r : Option Bytes × PacketVerify). r.0) (IsAccepted-verify d m a)),
    )
    | inr (m, e) ↦ let a = verify-IsAccepted d m e in inr (m, IsAccepted-verify d m a, a)
  ]
    where
      pair-eq :
          {o : Option Bytes} (r : Option Bytes × PacketVerify) → r.0 ≡ o → r.1 ≡ v → r ≡ (o, v)
      pair-eq (o, w) p q = cc (p, q)

      none-ne-some : {m : Bytes} → ¬ (none ≡ some m)
      none-ne-some e = cc e
