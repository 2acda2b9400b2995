-- ===== src/ConnKey/Verify.antt =====
-- What `ConnVerify` of src/lib.rs accepts: both signatures, over exactly the message.
use axsh.Prelude.{
  ℕ, ◌≡◌, refl, sym, ap, ◌∙◌, Bool, true, false, Bytes, length, length-append, length-take,
  length-drop, take, drop, take-append, drop-append, take-append-drop, append-injective,
}
use axsh.Prelude.{
  ◌++◌, append_assoc, arith, ltb, ltb-false, le→ltb, Bool-cases, inl, inr, some, Option-cases,
  Result, ok, err,
}
use mathlib.Core.Path.{subst₂}
use mathlib.Core.Logic.{◌↔◌}
use axsh.Crypto.{Crypto}
use axsh.Bundle.{BundleError, decode_conn_public_key}
use axsh.ConnKey.{
  ConnVerify, conn_signature_len, check_signatures, verify_detached, verify, verify_with,
  verify_prefixed,
}

module _ (c : Crypto) where
  -- A signature of `msg` under two public keys; a quantum-insecure one has no ML-DSA part.
  abbrev pub Genuine : Bool → Bytes → Bytes → Bytes → Bytes → Type 0
  Genuine true der key sig msg = (length sig ≡ 64) × (c.ed25519_verify key msg sig ≡ true)
  Genuine false der key sig msg =
      (ml : Bytes) × (ed : Bytes) × (sig ≡ ml ++ ed)
      × (length ml ≡ c.ml_dsa_signature_len)
      × (length ed ≡ 64)
      × (c.ml_dsa_verify der msg ml ≡ true)
      × (c.ed25519_verify key msg ed ≡ true)

  -- `sig` signs `msg` for this verifier.
  pub record IsSigned (v : ConnVerify) (sig msg : Bytes) : Type 0 where
    pub der : Bytes
    pub key : Bytes
    pub decoded : decode_conn_public_key v.public_key_bundle ≡ ok (der, key)
    pub genuine : Genuine v.quantum_insecure der key sig msg

  Genuine-length :
      (q : Bool) (der key sig msg : Bytes)
      → Genuine q der key sig msg
      → length sig ≡ conn_signature_len c q
  unfolding conn_signature_len
  Genuine-length true der key sig msg g = g.0
  Genuine-length false der key sig msg (ml, ed, e, n, m, _, _) =
      rw e (omega (arith, length-append ml ed))

  check-Genuine :
      (q : Bool) (der key sig msg m : Bytes)
      → length sig ≡ conn_signature_len c q
      → check_signatures c q der key sig msg ≡ some m
      → (msg ≡ m) × Genuine q der key sig msg
  unfolding check_signatures conn_signature_len
  check-Genuine true der key sig msg m n e = elim (Bool-cases (c.ed25519_verify key msg sig)) [
    | inl good ↦ (cc (rw good at e), (n, good))
    | inr bad ↦ cc (rw bad at e)
  ]
  check-Genuine false der key sig msg m n e =
      let ml = take c.ml_dsa_signature_len sig in
      let ed = drop c.ml_dsa_signature_len sig in
      elim (Bool-cases (c.ml_dsa_verify der msg ml)) [
        | inl good ↦ elim (Bool-cases (c.ed25519_verify key msg ed)) [
          | inl fine ↦ (
            cc (rw (good, fine) at e),
            (
              ml,
              ed,
              sym (take-append-drop c.ml_dsa_signature_len sig),
              omega (arith, length-take c.ml_dsa_signature_len sig),
              omega (arith, length-drop c.ml_dsa_signature_len sig),
              good,
              fine,
            ),
          )
          | inr bad ↦ cc (rw (good, bad) at e)
        ]
        | inr bad ↦ cc (rw bad at e)
      ]

  Genuine-check :
      (q : Bool) (der key sig msg : Bytes)
      → Genuine q der key sig msg
      → check_signatures c q der key sig msg ≡ some msg
  unfolding check_signatures
  Genuine-check true der key sig msg g = rw g.1
  Genuine-check false der key sig msg (ml, ed, e, n, m, good, fine) = rw (
    e,
    take-append c.ml_dsa_signature_len ml ed n,
    drop-append c.ml_dsa_signature_len ml ed n,
    good,
    fine,
  )

  verify-IsSigned :
      (v : ConnVerify) (d m : Bytes)
      → verify c v d ≡ some m
      → (sig : Bytes) × (d ≡ sig ++ m) × IsSigned v sig m
  unfolding verify
  verify-IsSigned v d m e = decoded (decode_conn_public_key v.public_key_bundle) refl e
    where
      decoded :
          (r : Result BundleError (Bytes × Bytes))
          → decode_conn_public_key v.public_key_bundle ≡ r
          → verify_with c v.quantum_insecure d r ≡ some m
          → (sig : Bytes) × (d ≡ sig ++ m) × IsSigned v sig m
      decoded (err x) q e = cc e
      decoded (ok (der, key)) q e =
          let n = conn_signature_len c v.quantum_insecure in
          elim (Bool-cases (ltb (length d) n)) [
            | inl short ↦ cc (rw short at e)
            | inr long ↦
                let (msg, g) =
                  check-Genuine v.quantum_insecure der key (take n d) (drop n d) m
                    (omega (arith, length-take n d, ltb-false _ _ long)) (rw long at e) in
                (
                  take n d,
                  rw (← msg) (sym (take-append-drop n d)),
                  record { der = der; key = key; decoded = q; genuine = rw msg at g },
                )
          ]

  IsSigned-verify :
      (v : ConnVerify) (sig m : Bytes) → IsSigned v sig m → verify c v (sig ++ m) ≡ some m
  unfolding verify
  IsSigned-verify v sig m s =
      let n : length sig ≡ conn_signature_len c v.quantum_insecure =
        Genuine-length v.quantum_insecure s.der s.key sig m s.genuine in
      let long : ltb (length (sig ++ m)) (conn_signature_len c v.quantum_insecure) ≡ false =
        le→ltb _ _ (omega (arith, n, length-append sig m)) in
      rw
        (
          s.decoded,
          long,
          take-append (conn_signature_len c v.quantum_insecure) sig m n,
          drop-append (conn_signature_len c v.quantum_insecure) sig m n,
        )
        (Genuine-check v.quantum_insecure s.der s.key sig m s.genuine)

  -- `verify` returns a message exactly when the input is that message behind a signature of it under
  -- the verifier's bundle: 64 bytes that Ed25519 accepts, and before them, unless the verifier is
  -- quantum-insecure, a signature that ML-DSA accepts.
  pub verify_iff :
      (v : ConnVerify) (d m : Bytes)
      → (verify c v d ≡ some m) ↔ ((sig : Bytes) × (d ≡ sig ++ m) × IsSigned v sig m)
  verify_iff v d m = (verify-IsSigned v d m, λ (sig, e, s). rw e (IsSigned-verify v sig m s))

  pub IsSigned-length :
      (v : ConnVerify) (sig m : Bytes)
      → IsSigned v sig m
      → length sig ≡ conn_signature_len c v.quantum_insecure
  IsSigned-length v sig m s = Genuine-length v.quantum_insecure s.der s.key sig m s.genuine

  -- A prefixed verification accepts a signature of the prefix and the message together, and returns the
  -- message alone: `sig ++ message` is accepted under `prefix` exactly when `sig` signs `prefix ++
  -- message`.
  pub verify_prefixed_iff :
      (v : ConnVerify) (prefix d m : Bytes)
      → (verify_prefixed c v prefix d ≡ some m)
        ↔ ((sig : Bytes) × (d ≡ sig ++ m) × IsSigned v sig (prefix ++ m))
  unfolding verify_prefixed
  verify_prefixed_iff v prefix d m = (there, back)
    where
      n : ℕ
      n = conn_signature_len c v.quantum_insecure

      there :
          verify_prefixed c v prefix d ≡ some m
          → (sig : Bytes) × (d ≡ sig ++ m) × IsSigned v sig (prefix ++ m)
      there e = elim (Bool-cases (ltb (length d) n)) [
        | inl short ↦ cc (rw short at e)
        | inr long ↦
            let sig = take n d in
            let msg = drop n d in
            elim (Option-cases (verify c v ((sig ++ prefix) ++ msg))) [
              | inl bad ↦ cc (rw (long, bad) at e)
              | inr (w, good) ↦
                  let same : msg ≡ m = cc (rw (long, good) at e) in
                  let (sig', shape, s) = verify-IsSigned v ((sig ++ prefix) ++ msg) w good in
                  let len : length sig ≡ length sig' =
                    omega
                      (arith, length-take n d, ltb-false _ _ long, IsSigned-length v sig' w s) in
                  let (p, q) =
                    append-injective sig sig' (prefix ++ msg) w len
                      (sym (append_assoc sig prefix msg) ∙ shape) in
                  (
                    sig,
                    rw (← same) (sym (take-append-drop n d)),
                    subst₂ (λ x y. IsSigned v x y) (sym p)
                        (sym q ∙ ap (λ (t : Bytes). prefix ++ t) same) s,
                  )
            ]
      ]

      back :
          ((sig : Bytes) × (d ≡ sig ++ m) × IsSigned v sig (prefix ++ m))
          → verify_prefixed c v prefix d ≡ some m
      back (sig, e, s) =
          let len = IsSigned-length v sig (prefix ++ m) s in
          let long : ltb (length (sig ++ m)) n ≡ false =
            le→ltb _ _ (omega (arith, len, length-append sig m)) in
          rw (
            e,
            long,
            take-append n sig m len,
            drop-append n sig m len,
            append_assoc sig prefix m,
            IsSigned-verify v sig (prefix ++ m) s,
          )

  -- A detached signature of the verifier's length that is accepted signs exactly the data.
  pub verify_detached-IsSigned :
      (v : ConnVerify) (sig d : Bytes)
      → length sig ≡ conn_signature_len c v.quantum_insecure
      → verify_detached c v sig d ≡ true
      → IsSigned v sig d
  unfolding verify_detached
  verify_detached-IsSigned v sig d len e = elim (Option-cases (verify c v (sig ++ d))) [
    | inl bad ↦ cc (rw bad at e)
    | inr (m, good) ↦
        let (sig', shape, s) = verify-IsSigned v (sig ++ d) m good in
        let (p, q) = append-injective sig sig' d m (len ∙ sym (IsSigned-length v sig' m s)) shape in
        subst₂ (λ x y. IsSigned v x y) (sym p) (sym q) s
  ]
