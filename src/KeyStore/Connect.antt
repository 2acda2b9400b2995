-- ===== src/KeyStore/Connect.antt =====
-- src/bin/axsh.rs: the handshake that `main` asks for, with its two callbacks.
use axsh.Prelude.{ℕ, Bool, Bytes, List, Option, none, some, Result, ok, err}
use axsh.Crypto.{Crypto}
use axsh.Handshake.{HandshakeError, refused, Handshake}
use axsh.ConnKey.{ConnSign}
use axsh.Packet.Hello.{ServerHello}
use axsh.Transport.{Accepting}
use axsh.Client.Run.{ClientStream, new_with_server_pubkey_lookup_inner}
use axsh.KeyStore.Load.{File, Map, get, AppendError, confirm_and_add_known_host}

abbrev pub unless_failed : Result AppendError Bytes → Result HandshakeError (Unit {0})
unless_failed (ok text) = ok tt
unless_failed (err e) = err refused

-- `known_hosts`, the address of the server, what the user would type, the file of known hosts as a
-- confirmation finds it, and whether it can be written.
module _ (known_hosts : Map) (addr response : Bytes) (file : File) (writable : Bool) where
  abbrev pub lookup_server_pubkey : ServerHello → Result HandshakeError (Option Bytes)
  lookup_server_pubkey server_hello = ok (get addr known_hosts)

  -- The test `is_known_host`, on the entry for the address.
  abbrev pub accept_unless_known : Option Bytes → Bytes → Result HandshakeError (Unit {0})
  accept_unless_known (some expected) public_key = ok tt
  accept_unless_known none public_key =
      unless_failed (confirm_and_add_known_host response file writable addr public_key)

  abbrev pub accept_server_pubkey : ServerHello → Bytes → Result HandshakeError (Unit {0})
  accept_server_pubkey server_hello public_key =
      accept_unless_known (get addr known_hosts) public_key

  unfoldable pub connect :
      (c : Crypto)
      → ConnSign c
      → Option c.Ed25519KeyPair
      → Result HandshakeError ℕ
      → ℕ
      → List Accepting
      → Handshake (ClientStream c)
  connect c conn_sign generated random now accepting =
      new_with_server_pubkey_lookup_inner c conn_sign lookup_server_pubkey accept_server_pubkey
        generated random now accepting
