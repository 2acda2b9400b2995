-- ===== src/Transport/Reads.antt =====
-- src/transport.rs: the bytes that a `PayloadStream` delivers to its reader, over any sequence of polls.
use axsh.Prelude.{
  ◌⊎◌, ℕ, suc, ◌+◌, ◌-◌, ◌<◌, ◌^◌, ◌≡◌, refl, sym, ap, ◌∙◌, Bool, true, false, Bool-cases, inl, inr,
  Bytes, length, take, drop, drop_all, drop-drop, take-append-drop, List, [], ◌∷◌, ◌++◌,
  append_assoc, append-nil, arith, Option, none, some, ◌==◌, ==→eq, if◌then◌else◌, Result, ok, err,
}
use Prim.Native.Nat.{min}
use mathlib.Core.Path.{subst}
use mathlib.Core.Option
use axsh.Crypto.{Crypto}
use axsh.Hdlc.Reader.{Incoming, Poll, pending, ready}
use axsh.PacketKey.{PacketSign, PacketVerify, new_verify}
use axsh.PacketKey.Session.{Signed}
use axsh.Transport.{PayloadStream, Stream, IoError, Polls, new_stream}
use axsh.Transport.Delivered.{flatten, Seen, IsSeen, Filled, fill_loop-Filled}
use axsh.Transport.Reading.{poll_fill_read_buffer, copy_out, after_fill, poll_read_payload}

abbrev pub bytes_of : Poll (Result IoError Bytes) → Bytes
bytes_of (ready (ok bs)) = bs
bytes_of (ready (err e)) = []
bytes_of pending = []

module _ (c : Crypto) (clock : List Incoming → ℕ × ℕ) where
  abbrev and_read : Bytes → Option (Bytes × PayloadStream c) → Option (Bytes × PayloadStream c)
  and_read bs none = none
  and_read bs (some (later, s)) = some (bs ++ later, s)

  abbrev then_reads :
      (PayloadStream c → Option (Bytes × PayloadStream c))
      → Option (Polls c Bytes)
      → Option (Bytes × PayloadStream c)
  then_reads next none = none
  then_reads next (some (r, s)) = and_read (bytes_of r) (next s)

  -- All that a sequence of polls delivers, with the room that the reader's buffer has at each.
  unfoldable pub reads : PayloadStream c → List ℕ → Option (Bytes × PayloadStream c)
  reads s [] = some ([], s)
  reads s (room ∷ rest) = then_reads (λ s. reads s rest) (poll_read_payload c clock s room)

module _ (c : Crypto) (clock : List Incoming → ℕ × ℕ) (payloads : List Bytes) (key : Bytes)
    (count : length payloads < 2 ^ 64)
    (unforged : (input signature : Bytes)
      → c.ed25519_verify key input signature ≡ true
      → Signed payloads input) where
  -- A poll returns, and what it delivers is seen.
  abbrev PolledOnce : Bytes → Option (Polls c Bytes) → Type 0
  PolledOnce seen o =
      (r : Poll (Result IoError Bytes)) × (s : PayloadStream c) × (o ≡ some (r, s))
      × IsSeen c clock payloads key count unforged (seen ++ bytes_of r) s

  nothing :
      (r : Poll (Result IoError Bytes)) (s : PayloadStream c) (seen : Bytes)
      → bytes_of r ≡ []
      → IsSeen c clock payloads key count unforged seen s
      → IsSeen c clock payloads key count unforged (seen ++ bytes_of r) s
  nothing r s seen e i =
      subst (λ (t : Bytes). IsSeen c clock payloads key count unforged t s)
        (sym (append-nil seen) ∙ ap (λ (t : Bytes). seen ++ t) (sym e)) i

  -- Some bytes go from the buffer to the reader.
  moved :
      (n offset : ℕ) (seen buffer : Bytes) (v : PacketVerify)
      → Seen c clock payloads key count unforged seen (drop offset buffer) v
      → Seen c clock payloads key count unforged
          (seen ++ take n (drop offset buffer))
          (drop (offset + n) buffer)
          v
  moved n offset seen buffer v i = record {
    same_key = i.same_key;
    counted = i.counted;
    total =
        append_assoc seen (take n (drop offset buffer)) _
        ∙ ap (λ (t : Bytes). seen ++ t)
            (sym (append_assoc (take n (drop offset buffer)) (drop (offset + n) buffer) _)
              ∙ ap (λ (t : Bytes). t ++ flatten (drop v.verify_counter payloads))
                  (ap (λ (t : Bytes). take n (drop offset buffer) ++ t)
                      (sym (drop-drop offset n buffer))
                    ∙ take-append-drop n (drop offset buffer)))
        ∙ i.total;
  }

  copy_out-PolledOnce :
      (s : PayloadStream c) (room : ℕ) (seen : Bytes)
      → IsSeen c clock payloads key count unforged seen s
      → PolledOnce seen (some (copy_out c clock s room))
  copy_out-PolledOnce s room seen i =
      (_, _, refl, cleared (Bool-cases (s.read_offset + n == length s.read_buffer)))
    where
      n : ℕ
      n = min (length s.read_buffer - s.read_offset) room

      cleared :
          ((s.read_offset + n == length s.read_buffer) ≡ true)
            ⊎ ((s.read_offset + n == length s.read_buffer) ≡ false)
          → IsSeen c clock payloads key count unforged
              (seen ++ take n (drop s.read_offset s.read_buffer))
              (if s.read_offset + n == length s.read_buffer
                then record s { read_buffer = []; read_offset = 0 }
                else record s { read_offset = s.read_offset + n })
      cleared (inl e) = rw e (
          subst
            (λ (t : Bytes).
              Seen c clock payloads key count unforged
                (seen ++ take n (drop s.read_offset s.read_buffer)) t s.peer_packet_verify)
            (drop_all (s.read_offset + n) s.read_buffer (omega (arith, ==→eq _ _ e)))
            (moved n s.read_offset seen s.read_buffer s.peer_packet_verify i))
      cleared (inr e) = rw e (moved n s.read_offset seen s.read_buffer s.peer_packet_verify i)

  Filled-PolledOnce :
      (room : ℕ) (seen : Bytes) (o : Option (Polls c Bool))
      → Filled c clock payloads key count unforged seen o
      → PolledOnce seen (Option.map (after_fill c clock room) o)
  Filled-PolledOnce room seen o (r, s, e, i) =
      subst (λ o. PolledOnce seen (Option.map (after_fill c clock room) o)) (sym e) (result r)
    where
      result :
          (r : Poll (Result IoError Bool))
          → PolledOnce seen (Option.map (after_fill c clock room) (some (r, s)))
      result pending = (_, _, refl, nothing pending s seen refl i)
      result (ready (err x)) = (_, _, refl, nothing (ready (err x)) s seen refl i)
      result (ready (ok false)) = (_, _, refl, nothing (ready (ok [])) s seen refl i)
      result (ready (ok true)) = copy_out-PolledOnce s room seen i

  poll_read_payload-PolledOnce :
      (s : PayloadStream c) (room : ℕ) (seen : Bytes)
      → IsSeen c clock payloads key count unforged seen s
      → PolledOnce seen (poll_read_payload c clock s room)
  unfolding poll_read_payload poll_fill_read_buffer
  poll_read_payload-PolledOnce s room seen i = elim (Bool-cases (room == 0)) [
    | inl none_left ↦ rw none_left (_, _, refl, nothing (ready (ok [])) s seen refl i)
    | inr some_left ↦ elim (Bool-cases (s.read_offset == length s.read_buffer)) [
      | inl over ↦
          rw (some_left, over)
            (Filled-PolledOnce room seen _ (
              fill_loop-Filled c clock payloads key count unforged (suc (length s.stream.incoming))
                s seen (omega arith)
                (drop_all s.read_offset s.read_buffer (omega (arith, ==→eq _ _ over))) i))
      | inr more ↦ rw (some_left, more) (copy_out-PolledOnce s room seen i)
    ]
  ]

  reads-Seen :
      (rooms : List ℕ) (s : PayloadStream c) (seen : Bytes)
      → IsSeen c clock payloads key count unforged seen s
      → (got : Bytes) × (s' : PayloadStream c) × (reads c clock s rooms ≡ some (got, s'))
        × IsSeen c clock payloads key count unforged (seen ++ got) s'
  unfolding reads
  reads-Seen [] s seen i = (
    [],
    s,
    refl,
    subst (λ (t : Bytes). IsSeen c clock payloads key count unforged t s) (sym (append-nil seen)) i,
  )
  reads-Seen (room ∷ rest) s seen i =
      let (r, s', polled, i') = poll_read_payload-PolledOnce s room seen i in
      let (later, s'', more, i'') = reads-Seen rest s' (seen ++ bytes_of r) i' in
      (
        bytes_of r ++ later,
        s'',
        ap (then_reads c clock (λ s. reads c clock s rest)) polled
            ∙ ap (and_read c clock (bytes_of r)) more,
        subst (λ (t : Bytes). IsSeen c clock payloads key count unforged t s'')
            (append_assoc seen (bytes_of r) later) i'',
      )

  -- If every input that verifies under the peer's key was signed by the peer, with counter `i` for its
  -- payload `i`, then every sequence of polls of a new stream returns, whatever the stream below
  -- delivers, delays or breaks and whatever room the reader has, and the bytes that the reader gets are
  -- the first bytes of the peer's payloads put together.
  pub reads-IsPrefix :
      (stream : Stream) (signer : PacketSign c) (start : ℕ) (rooms : List ℕ)
      → (got rest : Bytes) × (s : PayloadStream c) × (reads c clock
            (new_stream c stream signer (new_verify start key))
            rooms
          ≡ some (got, s))
        × (got ++ rest ≡ flatten payloads)
  unfolding new_stream new_verify
  reads-IsPrefix stream signer start rooms =
      let (got, s, e, i) =
        reads-Seen rooms (new_stream c stream signer (new_verify start key)) []
          (record { same_key = refl; counted = omega arith; total = refl }) in
      (
        got,
        drop s.read_offset s.read_buffer
            ++ flatten (drop s.peer_packet_verify.verify_counter payloads),
        s,
        e,
        i.total,
      )
