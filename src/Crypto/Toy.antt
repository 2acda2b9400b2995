-- ===== src/Crypto/Toy.antt =====
-- Small concrete functions in the place of aws-lc-rs, for runs: a signature is a checksum.
use axsh.Prelude.{
  ℕ, zero, suc, ◌+◌, ◌%◌, ◌≤◌, ◌≡◌, refl, sym, ap, ◌∙◌, Bytes, bytes_eq, bytes_eq_refl, IsByte, All,
  length, [], ◌∷◌, Option, some, arith,
}
use axsh.Crypto.{Crypto, CryptoLaws}

abbrev pub zeros : ℕ → Bytes
zeros zero = []
zeros (suc n) = 0 ∷ zeros n

length-zeros : (n : ℕ) → length (zeros n) ≡ n
length-zeros zero = refl
length-zeros (suc n) = ap suc (length-zeros n)

zeros-IsByte : (n : ℕ) → All IsByte (zeros n)
zeros-IsByte zero = tt
zeros-IsByte (suc n) = (omega arith, zeros-IsByte n)

abbrev pub checksum : Bytes → ℕ
checksum [] = 0
checksum (b ∷ bs) = (b + checksum bs) % 256

abbrev pub seal : ℕ → Bytes → Bytes
seal n m = checksum m ∷ zeros n

abbrev pub some_key : Bytes → Option (Unit {0})
some_key bytes = some tt

-- There is one key pair of each kind. ML-DSA signatures have 2 bytes.
abbrev pub toy : Crypto
toy = record {
  MlDsaKeyPair = Unit {0};
  Ed25519KeyPair = Unit {0};
  ml_dsa_signature_len = 2;
  ml_dsa_sign = λ k m. some (seal 1 m);
  ml_dsa_public_key = λ k. 5 ∷ [];
  ml_dsa_verify = λ der m s. bytes_eq (seal 1 m) s;
  ml_dsa_to_pkcs8 = λ k. 1 ∷ [];
  ml_dsa_from_pkcs8 = some_key;
  ed25519_sign = λ k m. seal 63 m;
  ed25519_public_key = λ k. zeros 32;
  ed25519_verify = λ key m s. bytes_eq (seal 63 m) s;
  ed25519_to_pkcs8 = λ k. 2 ∷ [];
  ed25519_from_pkcs8 = some_key;
  sha256 = λ m. seal 31 m;
}

checksum-lt : (m : Bytes) → suc (checksum m) ≤ 256
checksum-lt [] = omega arith
checksum-lt (b ∷ bs) = omega arith

pub toy_laws : CryptoLaws toy
toy_laws = record {
  length-ml_dsa_sign = λ k m s e. ap length (sym (injective e));
  ml_dsa_verify-sign =
      λ k m s e. ap (bytes_eq (seal 1 m)) (sym (injective e)) ∙ bytes_eq_refl (seal 1 m);
  length-ml_dsa_public_key = λ k. omega arith;
  ml_dsa_pkcs8 = λ k. refl;
  length-ed25519_sign = λ k m. refl;
  ed25519_verify-sign = λ k m. bytes_eq_refl (seal 63 m);
  length-ed25519_public_key = λ k. refl;
  ed25519_pkcs8 = λ k. refl;
  length-sha256 = λ m. refl;
  sha256-IsByte = λ m. (checksum-lt m, zeros-IsByte 31);
  ed25519_public_key-IsByte = λ k. zeros-IsByte 32;
}
  where
    injective : {a b : Bytes} → ◌≡◌ {A = Option Bytes} (some a) (some b) → a ≡ b
    injective e = cc e
