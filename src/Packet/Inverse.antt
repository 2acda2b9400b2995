-- ===== src/Packet/Inverse.antt =====
-- src/packet.rs: what the decoders accept is what the encoders write.
use axsh.Prelude.{
  ℕ, ◌^◌, ◌<◌, ◌≡◌, sym, ap, ◌∙◌, Bytes, bytes_eq, bytes_eq→eq, IsByte, All, All-take, All-drop,
  length, length-take, take, drop, get_or, is_empty, is_empty→nil, take-append-drop, append-nil, [],
  ◌∷◌, ◌++◌, arith, leb, leb→le, ◌==◌, ok, bind-ok, ensure, ensure-ok, ok-injective, true,
}
use axsh.Prelude.Words.{to_be_bytes, from_be_bytes, to_be_bytes-from_be_bytes, from_be_bytes-lt}
use mathlib.Core.Path.{subst}
use axsh.Packet.Hello.{
  ServerHello, ClientHello, IsServerHello, IsClientHello, server_hello_magic, server_hello_version,
  take_u64, take_fixed, encode_server_hello, decode_server_hello, encode_client_hello,
  decode_client_hello,
}

-- What a successful `take_fixed` and `take_u64` have split off.
pub take_fixed_sound :
    (n : ℕ) (d x rest : Bytes)
    → take_fixed n d ≡ ok (x, rest)
    → (d ≡ x ++ rest) × (length x ≡ n) × (All IsByte d → All IsByte x × All IsByte rest)
unfolding take_fixed
take_fixed_sound n d x rest e =
    let (_, long, e1) = bind-ok (ensure (leb n (length d)) _) _ e in
    let p : take n d ≡ x = cc e1 in
    let q : drop n d ≡ rest = cc e1 in
    rw (← p, ← q)
      (
        sym (take-append-drop n d),
        omega (arith, leb→le n (length d) (ensure-ok _ _ long), length-take n d),
        λ h. (All-take IsByte n d h, All-drop IsByte n d h),
      )

pub take_u64_sound :
    (d rest : Bytes) (n : ℕ)
    → All IsByte d
    → take_u64 d ≡ ok (n, rest)
    → (d ≡ to_be_bytes 8 n ++ rest) × (n < 2 ^ 64) × All IsByte rest
unfolding take_u64
take_u64_sound d rest n h e =
    let (_, long, e1) = bind-ok (ensure (leb 8 (length d)) _) _ e in
    let p : from_be_bytes (take 8 d) ≡ n = cc e1 in
    let q : drop 8 d ≡ rest = cc e1 in
    let bytes = All-take IsByte 8 d h in
    let len : length (take 8 d) ≡ 8 =
      omega (arith, leb→le 8 (length d) (ensure-ok _ _ long), length-take 8 d) in
    rw (← p, ← q)
      (
        sym (
            ap (λ (t : Bytes). t ++ drop 8 d)
              (rw len at (to_be_bytes-from_be_bytes (take 8 d) bytes))
            ∙ take-append-drop 8 d),
        rw len at (from_be_bytes-lt (take 8 d) bytes),
        All-drop IsByte 8 d h,
      )

-- The three fields of a hello, taken one after the other from a string of bytes.
hello_fields :
    (d r digest r1 key r2 : Bytes) (n : ℕ)
    → d ≡ to_be_bytes 8 n ++ r
    → r ≡ digest ++ r1
    → r1 ≡ key ++ r2
    → is_empty r2 ≡ true
    → d ≡ to_be_bytes 8 n ++ (digest ++ key)
hello_fields d r digest r1 key r2 n p q s e =
    p
    ∙ ap (λ (t : Bytes). to_be_bytes 8 n ++ t)
        (q
          ∙ ap (λ (t : Bytes). digest ++ t)
              (s ∙ ap (λ (t : Bytes). key ++ t) (is_empty→nil r2 e) ∙ append-nil key))

-- A body of bytes decodes to a `ClientHello` only if it is the encoding of it.
pub decode_client_hello_sound :
    (d : Bytes) (h : ClientHello)
    → All IsByte d
    → decode_client_hello d ≡ ok h
    → (d ≡ encode_client_hello h) × IsClientHello h
unfolding decode_client_hello encode_client_hello
decode_client_hello_sound d h b e =
    let ((n, r), e1, f1) = bind-ok (take_u64 d) _ e in
    let ((digest, r1), e2, f2) = bind-ok (take_fixed 32 r) _ f1 in
    let ((key, r2), e3, f3) = bind-ok (take_fixed 32 r1) _ f2 in
    let (_, e4, f4) = bind-ok (ensure (is_empty r2) _) _ f3 in
    let (s1, fits, b1) = take_u64_sound d r n b e1 in
    let (s2, l2, b2) = take_fixed_sound 32 r digest r1 e2 in
    let (s3, l3, b3) = take_fixed_sound 32 r1 key r2 e3 in
    let got : ClientHello = record {
      unique = n;
      conn_sign_public_key_sha256 = digest;
      packet_sign_public_key = key;
    } in
    subst (λ h. (d ≡ encode_client_hello h) × IsClientHello h) {x = got} (ok-injective f4)
      (
        hello_fields d r digest r1 key r2 n s1 s2 s3 (ensure-ok _ _ e4),
        record { unique_fits = fits; length_digest = l2; length_key = l3 },
      )

one_byte : (d v rest : Bytes) → d ≡ v ++ rest → length v ≡ 1 → d ≡ get_or v 0 0 ∷ rest
one_byte d [] rest p l = absurd (omega (arith, l))
one_byte d (x ∷ []) rest p l = p
one_byte d (x ∷ (y ∷ v)) rest p l = absurd (omega (arith, l))

-- The magic and the version in front of them.
server_hello_shape :
    (d magic r version r1 fields : Bytes)
    → d ≡ magic ++ r
    → magic ≡ server_hello_magic
    → r ≡ get_or version 0 0 ∷ r1
    → (get_or version 0 0 == server_hello_version) ≡ true
    → r1 ≡ fields
    → d ≡ server_hello_magic ++ (server_hello_version ∷ fields)
server_hello_shape d magic r version r1 fields p q s t u =
    let v : get_or version 0 0 ≡ server_hello_version = ground arith in
    p
    ∙ ap (λ (m : Bytes). m ++ r) q
    ∙ ap (λ (t : Bytes). server_hello_magic ++ t)
        (s ∙ ap (λ (x : ℕ). x ∷ r1) v ∙ ap (λ (t : Bytes). server_hello_version ∷ t) u)

-- A body of bytes decodes to a `ServerHello` only if it is the encoding of it.
pub decode_server_hello_sound :
    (d : Bytes) (h : ServerHello)
    → All IsByte d
    → decode_server_hello d ≡ ok h
    → (d ≡ encode_server_hello h) × IsServerHello h
unfolding decode_server_hello encode_server_hello
decode_server_hello_sound d h b e =
    let ((magic, r), e1, f1) = bind-ok (take_fixed 4 d) _ e in
    let (_, e2, f2) = bind-ok (ensure (bytes_eq magic server_hello_magic) _) _ f1 in
    let ((version, r1), e3, f3) = bind-ok (take_fixed 1 r) _ f2 in
    let (_, e4, f4) = bind-ok (ensure (get_or version 0 0 == server_hello_version) _) _ f3 in
    let ((n, r2), e5, f5) = bind-ok (take_u64 r1) _ f4 in
    let ((digest, r3), e6, f6) = bind-ok (take_fixed 32 r2) _ f5 in
    let ((key, r4), e7, f7) = bind-ok (take_fixed 32 r3) _ f6 in
    let (_, e8, f8) = bind-ok (ensure (is_empty r4) _) _ f7 in
    let (s1, l1, b1) = take_fixed_sound 4 d magic r e1 in
    let (s3, l3, b3) = take_fixed_sound 1 r version r1 e3 in
    let (s5, fits, b5) = take_u64_sound r1 r2 n (b3 (b1 b).1).1 e5 in
    let (s6, l6, b6) = take_fixed_sound 32 r2 digest r3 e6 in
    let (s7, l7, b7) = take_fixed_sound 32 r3 key r4 e7 in
    let got : ServerHello = record {
      unique = n;
      conn_sign_public_key_sha256 = digest;
      packet_sign_public_key = key;
    } in
    subst (λ h. (d ≡ encode_server_hello h) × IsServerHello h) {x = got} (ok-injective f8)
      (
        server_hello_shape d magic r version r1 _ s1
            (bytes_eq→eq magic server_hello_magic (ensure-ok _ _ e2)) (one_byte r version r1 s3 l3)
            (ensure-ok _ _ e4) (hello_fields r1 r2 digest r3 key r4 n s5 s6 s7 (ensure-ok _ _ e8)),
        record { unique_fits = fits; length_digest = l6; length_key = l7 },
      )
