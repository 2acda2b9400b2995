-- ===== src/KeyStore/Trust.antt =====
-- src/bin/axsh.rs: which servers `main` talks to.
use axsh.Prelude.{
  ℕ, ◌≡◌, ◌⊎◌, inl, inr, refl, ◌∙◌, Bool, Bool-cases, Bytes, bytes_eq, bytes_eq→eq, List, Option,
  none, some, Result, ok, err, ok-injective,
}
use axsh.Base64.{codes}
use axsh.Crypto.{Crypto}
use axsh.Handshake.{HandshakeError, Channel}
use axsh.ConnKey.{ConnSign}
use axsh.Transport.{Accepting}
use axsh.Client.Run.{ClientStream}
use axsh.Client.Answers.{Source}
use axsh.Client.Completed.{Completed, new_with_server_pubkey_lookup_inner-Completed}
use axsh.KeyStore.Text.{trim}
use axsh.KeyStore.Load.{File, Map, get, AppendError, append_known_host, confirm_and_add_known_host}
use axsh.KeyStore.Connect.{
  lookup_server_pubkey, accept_unless_known, unless_failed, accept_server_pubkey, connect,
}

module _ (known_hosts : Map) (addr response : Bytes) (file : File) (writable : Bool) where
  -- The key is the one that is filed for the address; or none is filed, and the user has said yes, and
  -- the key has been added.
  abbrev pub Trusted : Bytes → Type 0
  Trusted key =
      (get addr known_hosts ≡ some key)
      ⊎ ((get addr known_hosts ≡ none)
          × (trim response ≡ codes "yes")
          × ((text : Bytes) × (append_known_host file writable addr key ≡ ok text)))

  confirmed :
      (key : Bytes)
      → unless_failed (confirm_and_add_known_host response file writable addr key) ≡ ok tt
      → (trim response ≡ codes "yes")
        × ((text : Bytes) × (append_known_host file writable addr key ≡ ok text))
  unfolding confirm_and_add_known_host
  confirmed key e = elim (Bool-cases (bytes_eq (trim response) (codes "yes"))) [
    | inl agreed ↦ (
      bytes_eq→eq (trim response) (codes "yes") agreed,
      added (append_known_host file writable addr key) refl (rw agreed at e),
    )
    | inr refusal ↦ cc (rw refusal at e)
  ]
    where
      added :
          (r : Result AppendError Bytes)
          → append_known_host file writable addr key ≡ r
          → unless_failed r ≡ ok tt
          → (text : Bytes) × (append_known_host file writable addr key ≡ ok text)
      added (ok text) q e = (text, q)
      added (err x) q e = cc e

  accepted-Trusted :
      (known : Option Bytes) (key : Bytes)
      → get addr known_hosts ≡ known
      → (known ≡ some key) ⊎ (known ≡ none)
      → accept_unless_known known_hosts addr response file writable known key ≡ ok tt
      → Trusted key
  accepted-Trusted (some k) key q (inl e) p = inl (q ∙ e)
  accepted-Trusted (some k) key q (inr e) p = cc e
  accepted-Trusted none key q (inl e) p = cc e
  accepted-Trusted none key q (inr e) p =
      let (typed, text) = confirmed key p in inr (q, typed, text)

  -- What is known of a session: a handshake in which the frames that were read and written, the two
  -- hellos and the server's signature of them are as `Completed` says; and its key is a trusted one.
  pub record Verified (c : Crypto) (conn_sign : ConnSign c) (random : Result HandshakeError ℕ)
      (now : ℕ) (accepting : List Accepting) (channel final : Channel) (s : ClientStream c)
      : Type 0 where
    pub completed :
        Completed c conn_sign
          (lookup_server_pubkey known_hosts addr response file writable)
          (accept_server_pubkey known_hosts addr response file writable)
          random
          now
          accepting
          channel
          final
          s
    pub trusted : Trusted completed.public_key

  -- If the client program gets a session with the server at an address, then it has read a server hello
  -- and sent a client hello, and the last packet that it has read has a signature of these two, as they
  -- were on the wire, by a key that is filed for that address; or no key was filed for it, the user has
  -- typed yes, and the key has been added to the file. The session has the hello that was read.
  pub connect-Verified :
      (c : Crypto) (conn_sign : ConnSign c) (generated : Option c.Ed25519KeyPair)
      (random : Result HandshakeError ℕ) (now : ℕ) (accepting : List Accepting)
      (channel final : Channel) (s : ClientStream c)
      → connect known_hosts addr response file writable c conn_sign generated random now accepting
          channel
        ≡ some (ok s, final)
      → Verified c conn_sign random now accepting channel final s
  unfolding connect
  connect-Verified c conn_sign generated random now accepting channel final s e =
      let done =
        new_with_server_pubkey_lookup_inner-Completed c conn_sign
          (lookup_server_pubkey known_hosts addr response file writable)
          (accept_server_pubkey known_hosts addr response file writable) generated random now
          accepting channel final s e in
      record {
        completed = done;
        trusted =
            accepted-Trusted (get addr known_hosts) done.public_key refl (source done.source)
              done.accepted;
      }
    where
      source :
          {key requests : Bytes} {answers : List Bytes}
          → Source c conn_sign
              (lookup_server_pubkey known_hosts addr response file writable)
              (accept_server_pubkey known_hosts addr response file writable)
              (ok (get addr known_hosts))
              key
              requests
              answers
          → (get addr known_hosts ≡ some key) ⊎ (get addr known_hosts ≡ none)
      source (inl (p, _, _)) = inl (ok-injective p)
      source (inr (p, _, _, _, _)) = inr (ok-injective p)
