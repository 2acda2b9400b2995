-- ===== src/Hdlc/Stuffing.antt =====
-- Byte stuffing of src/hdlc.rs as plain lists: what `escape_into` appends and what `decode` undoes.
use Prim.Native.Nat.{bit_xor}
use axsh.Prelude.{ℕ, ◌*◌, ◌≤◌, ◌≡◌, ◌≢◌, refl, false, ◌||◌, Bytes, length, length-append}
use axsh.Prelude.{
  [], ◌∷◌, ◌++◌, append_assoc, append-nil, All, All-append, arith, ◌==◌, if◌then◌else◌,
}
use axsh.Hdlc.{flag, escape, escape_xor, escape_into, unescape}

-- One payload byte on the wire.
abbrev pub stuff_byte : ℕ → Bytes
stuff_byte b = if b == flag || b == escape then escape ∷ bit_xor b escape_xor ∷ [] else b ∷ []

abbrev pub stuff : Bytes → Bytes
stuff [] = []
stuff (b ∷ bs) = stuff_byte b ++ stuff bs

pub stuff-append : (xs ys : Bytes) → stuff (xs ++ ys) ≡ stuff xs ++ stuff ys
stuff-append [] ys = refl
stuff-append (x ∷ xs) ys = rw (stuff-append xs ys, append_assoc)

push_stuffed :
    (b : ℕ) (out : Bytes)
    → (if b == flag || b == escape
        then (out ++ escape ∷ []) ++ bit_xor b escape_xor ∷ []
        else out ++ b ∷ [])
      ≡ out ++ stuff_byte b
push_stuffed b out = ground (arith, append_assoc out (escape ∷ []) (bit_xor b escape_xor ∷ []))

-- `escape_into` appends the stuffed bytes.
pub escape_into-stuff : (bs out : Bytes) → escape_into bs out ≡ out ++ stuff bs
unfolding escape_into
escape_into-stuff [] out = rw append-nil
escape_into-stuff (b ∷ bs) out =
    rw (push_stuffed, escape_into-stuff bs (out ++ stuff_byte b), append_assoc)

unescape-stuff_byte :
    (b : ℕ) (rest out : Bytes)
    → unescape (stuff_byte b ++ rest) false out ≡ unescape rest false (out ++ b ∷ [])
unfolding unescape
unescape-stuff_byte b rest out = ground arith

-- The decoder's loop undoes the stuffing and goes on with what follows.
pub unescape-stuff :
    (bs rest out : Bytes) → unescape (stuff bs ++ rest) false out ≡ unescape rest false (out ++ bs)
unescape-stuff [] rest out = rw append-nil
unescape-stuff (b ∷ bs) rest out =
    rw (append_assoc, unescape-stuff_byte, unescape-stuff bs rest (out ++ b ∷ []), append_assoc)

stuff_byte-ne-flag : (b : ℕ) → All (λ x. x ≢ flag) (stuff_byte b)
stuff_byte-ne-flag b = ground arith

-- No flag is left inside a frame.
pub stuff-ne-flag : (bs : Bytes) → All (λ x. x ≢ flag) (stuff bs)
stuff-ne-flag [] = tt
stuff-ne-flag (b ∷ bs) =
    All-append (λ x. x ≢ flag) (stuff_byte b) (stuff bs) (stuff_byte-ne-flag b) (stuff-ne-flag bs)

length-stuff_byte : (b : ℕ) → (1 ≤ length (stuff_byte b)) × (length (stuff_byte b) ≤ 2)
length-stuff_byte b = ground arith

pub length-stuff :
    (bs : Bytes) → (length bs ≤ length (stuff bs)) × (length (stuff bs) ≤ 2 * length bs)
length-stuff [] = omega arith
length-stuff (b ∷ bs) =
    omega (arith, length-append (stuff_byte b) (stuff bs), length-stuff_byte b, length-stuff bs)
