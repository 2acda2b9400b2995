-- ===== src/Lib.antt =====
-- A verification library for axsh, an SSH-like remote shell with post-quantum signatures.
--
-- The program. Two peers exchange HDLC frames (src/hdlc.rs) over a byte stream. A frame carries one
-- packet (src/packet.rs). The handshake packets are signed, where they are signed at all, by the
-- long-term keys `ConnSign` with two signatures (src/lib.rs); after it every packet is a payload, which
-- the per-connection keys `PacketSign` and `PacketVerify` sign and check with an implicit counter.
-- src/transport.rs puts the three together into a stream. Keys are kept in files as bundles, and
-- their public halves in text files in base64 (src/base64.rs).
--
-- The files, each with the source it models:
--   Prelude      numbers, byte lists, `Result`, bitwise operators and big-endian words
--   Base64       src/base64.rs: `encode_base64`, `decode_base64`
--   Hdlc         src/hdlc.rs: `encode`, `decode`, `update_fcs`; Hdlc.Reader has `read_frame`,
--                `AsyncFrameReader` and `read_frame_async`
--   Crypto       what src/lib.rs uses of aws-lc-rs, as a record of functions and one of laws
--   Bundle       src/lib.rs: the byte formats of the public and the private key bundles
--   PacketKey    src/lib.rs: `PacketSign` and `PacketVerify`
--   ConnKey      src/lib.rs: `ConnSign`, `ConnSignBuilder` and `ConnVerify`
--   Packet       src/packet.rs: Packet.Hello has the bodies of the hellos, Packet.Wire the `Packet` type
--                with its serialisers and `deserialize`
--   Transport    src/transport.rs: `PayloadStream`; this file has the writing half, Transport.Reading the
--                reading half
--   KeyFile      src/lib.rs: the lines of authorized_keys and known_hosts, and fingerprints
--   Handshake    what the two handshakes share: the stream, `write_all`, `read_frame_async`, and chains of
--                fallible steps
--   Client       src/client.rs: `new_with_server_pubkey_lookup_inner`, the whole handshake of the client
--   Server       src/server.rs: `new_inner`, the whole handshake of the server
--   Session      the two of them on one connection; Session.Rounds lets them take turns, each on what
--                the other has sent so far
--   KeyStore     src/bin/axsh.rs, axshd.rs and axsh-fingerprint.rs: the functions on key files, and in
--                KeyStore.Connect the handshake that the client's `main` asks for
--   Duration     src/lib.rs: `parse_duration`
--
-- How the code corresponds. A function of the source is a function of the same name. Bytes are
-- natural numbers and `[u8]` is a list of them; theorems that need it assume that they are below 256.
-- Shifts and wrapping additions are written with `/ 2 ^ n`, `* 2 ^ n` and `% 2 ^ n`. A method that
-- changes `self` returns the new value beside its result. The `RefCell` in `PacketSign` is such a
-- value. `anyhow` errors are constructors, one for each message. The times that `Instant` returns
-- are arguments. A stream is the list of what its reads return: a byte, a failure, or
-- `Poll::Pending`; the end of the list is the end of file. What its writes take is a list likewise.
--
-- Fuel. `drive`, the polling of `read_frame_async`, runs on fuel: a poll that is not the last
-- consumes a `Pending`. `fill_loop`, the loop of `poll_fill_read_buffer`, and `hello_loop`, the loop of
-- the server, run on fuel: a turn that is not the last consumes a frame. So one more turn than the
-- input is long is enough. The other loops are recursions on their lists.
--
-- Third-party code. `Crypto` is a parameter: ML-DSA-44 and Ed25519 key pairs, their signatures, PKCS#8
-- and SHA-256. `CryptoLaws` states what its documentation promises: the lengths of keys and
-- signatures, that a signature verifies under its own key, and that a key survives PKCS#8. That
-- signatures cannot be forged is no law of it; a theorem that needs it assumes it of the key and the
-- payloads at hand.
--
-- Time. The handshakes run under a timeout of tokio. Every input here is a finite list that is closed
-- by the end of file, so a peer that falls silent without closing the stream, where only the timeout
-- ends the handshake, is not modelled; nothing is said of a handshake that is cut off.
--
-- Files. A file of keys is UTF-8 text, a list of code points, and a `HashMap` is the list of its
-- entries. Base64 that is not ASCII is refused here as there, though its length counts characters.
-- A file that is appended to is modelled where its writes succeed; what a failing write leaves is not.
-- What the programs print is not modelled.
--
-- Not modelled: the rest of the processes (src/bin), which do I/O, read options and run a shell;
-- logging; random numbers; the file system.
pub mod Prelude
pub mod Base64
pub mod Hdlc
pub mod Crypto
pub mod Bundle
pub mod PacketKey
pub mod ConnKey
pub mod Packet
pub mod Transport
pub mod KeyFile
pub mod Handshake
pub mod Client
pub mod Server
pub mod Session
pub mod KeyStore
pub mod Duration
