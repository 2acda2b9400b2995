-- ===== src/Packet/Lengths.antt =====
-- src/packet.rs: the decoders of the hellos accept one length each.
use axsh.Prelude.{
  ℕ, ◌+◌, ◌≡◌, ap, true, Bytes, bytes_eq, length, length-drop, drop, get_or, is_empty, is_empty→nil,
  arith, leb, leb→le, ◌==◌, ok, bind-ok, ensure, ensure-ok,
}
use axsh.Packet.Hello.{
  ServerHello, ClientHello, IsServerHello, IsClientHello, server_hello_magic, server_hello_version,
  take_u64, take_fixed, encode_server_hello, decode_server_hello, encode_client_hello,
  decode_client_hello,
}
use axsh.Packet.RoundTrip.{
  decode_server_hello-encode_server_hello, decode_client_hello-encode_client_hello,
}

take_fixed-length :
    (n : ℕ) (d x rest : Bytes) → take_fixed n d ≡ ok (x, rest) → length d ≡ n + length rest
unfolding take_fixed
take_fixed-length n d x rest e =
    let (_, long, e1) = bind-ok (ensure (leb n (length d)) _) _ e in
    let q : drop n d ≡ rest = cc e1 in
    rw (← q) (omega (arith, leb→le n (length d) (ensure-ok _ _ long), length-drop n d))

take_u64-length : (d rest : Bytes) (n : ℕ) → take_u64 d ≡ ok (n, rest) → length d ≡ 8 + length rest
unfolding take_u64
take_u64-length d rest n e =
    let (_, long, e1) = bind-ok (ensure (leb 8 (length d)) _) _ e in
    let q : drop 8 d ≡ rest = cc e1 in
    rw (← q) (omega (arith, leb→le 8 (length d) (ensure-ok _ _ long), length-drop 8 d))

length-empty : (d : Bytes) → is_empty d ≡ true → length d ≡ 0
length-empty d e = ap length (is_empty→nil d e)

pub decode_client_hello-length :
    (d : Bytes) (h : ClientHello) → decode_client_hello d ≡ ok h → length d ≡ 72
unfolding decode_client_hello
decode_client_hello-length d h e =
    let ((n, r), e1, f1) = bind-ok (take_u64 d) _ e in
    let ((digest, r1), e2, f2) = bind-ok (take_fixed 32 r) _ f1 in
    let ((key, r2), e3, f3) = bind-ok (take_fixed 32 r1) _ f2 in
    let (_, e4, f4) = bind-ok (ensure (is_empty r2) _) _ f3 in
    omega (
      arith,
      take_u64-length d r n e1,
      take_fixed-length 32 r digest r1 e2,
      take_fixed-length 32 r1 key r2 e3,
      length-empty r2 (ensure-ok _ _ e4),
    )

pub decode_server_hello-length :
    (d : Bytes) (h : ServerHello) → decode_server_hello d ≡ ok h → length d ≡ 77
unfolding decode_server_hello
decode_server_hello-length d h e =
    let ((magic, r), e1, f1) = bind-ok (take_fixed 4 d) _ e in
    let (_, e2, f2) = bind-ok (ensure (bytes_eq magic server_hello_magic) _) _ f1 in
    let ((version, r1), e3, f3) = bind-ok (take_fixed 1 r) _ f2 in
    let (_, e4, f4) = bind-ok (ensure (get_or version 0 0 == server_hello_version) _) _ f3 in
    let ((n, r2), e5, f5) = bind-ok (take_u64 r1) _ f4 in
    let ((digest, r3), e6, f6) = bind-ok (take_fixed 32 r2) _ f5 in
    let ((key, r4), e7, f7) = bind-ok (take_fixed 32 r3) _ f6 in
    let (_, e8, f8) = bind-ok (ensure (is_empty r4) _) _ f7 in
    omega (
      arith,
      take_fixed-length 4 d magic r e1,
      take_fixed-length 1 r version r1 e3,
      take_u64-length r1 r2 n e5,
      take_fixed-length 32 r2 digest r3 e6,
      take_fixed-length 32 r3 key r4 e7,
      length-empty r4 (ensure-ok _ _ e8),
    )

pub length-encode_client_hello :
    (h : ClientHello) → IsClientHello h → length (encode_client_hello h) ≡ 72
length-encode_client_hello h v =
    decode_client_hello-length (encode_client_hello h) h
      (decode_client_hello-encode_client_hello h v)

pub length-encode_server_hello :
    (h : ServerHello) → IsServerHello h → length (encode_server_hello h) ≡ 77
length-encode_server_hello h v =
    decode_server_hello-length (encode_server_hello h) h
      (decode_server_hello-encode_server_hello h v)
