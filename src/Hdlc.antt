-- ===== src/Hdlc.antt =====
-- src/hdlc.rs: frames with byte stuffing and a CRC-16 check sequence.
mod Fcs
pub mod Stuffing
pub mod RoundTrip
pub mod Reader
pub mod Sound
pub mod Detection
mod Runs
use Prim.Native.Nat.{bit_and, bit_xor}
use axsh.Prelude.{
  ℕ, zero, suc, ◌+◌, ◌-◌, ◌*◌, ◌/◌, ◌%◌, ◌^◌, Bool, true, false, not, ◌||◌, Bytes, length,
}
use axsh.Prelude.{List, [], ◌∷◌, ◌++◌, take, drop, first, last, get_or, Option, none, some}
use axsh.Prelude.{ltb, leb, ◌==◌, if◌then◌else◌, Result, ok, err, ◌>>=◌, ◌>>◌, ensure}
use axsh.Prelude.Words.{u16_to_le_bytes, u16_from_le_bytes}

abbrev pub flag : ℕ
flag = 0x7e

abbrev pub escape : ℕ
escape = 0x7d

abbrev pub escape_xor : ℕ
escape_xor = 0x20

abbrev pub initial_fcs : ℕ
initial_fcs = 0xffff

abbrev pub fcs_poly : ℕ
fcs_poly = 0x8408

abbrev pub max_frame_size : ℕ
max_frame_size = 64 * 1024

-- The errors of `decode`, in the order of its tests.
pub data Error : Type 0 where
  frame_too_large frame_too_short no_opening_flag no_closing_flag : Error
  unexpected_flag dangling_escape missing_fcs fcs_mismatch : Error

-- One turn of the loop of `update_fcs`.
unfoldable pub shift_fcs : ℕ → ℕ
shift_fcs fcs = if not (bit_and fcs 1 == 0) then bit_xor (fcs / 2) fcs_poly else fcs / 2

-- `for _ in 0..n`
unfoldable pub shifts : ℕ → ℕ → ℕ
shifts zero fcs = fcs
shifts (suc n) fcs = shifts n (shift_fcs fcs)

unfoldable pub update_fcs : ℕ → ℕ → ℕ
update_fcs fcs byte = shifts 8 (bit_xor fcs byte)

unfoldable pub fold_fcs : ℕ → Bytes → ℕ
fold_fcs fcs [] = fcs
fold_fcs fcs (byte ∷ payload) = fold_fcs (update_fcs fcs byte) payload

-- `!x` on `u16` is `0xffff - x`.
unfoldable pub frame_fcs : Bytes → ℕ
frame_fcs payload = 0xffff - fold_fcs initial_fcs payload

-- `escape_into(bytes, out)` returns the new `out`.
unfoldable pub escape_into : Bytes → Bytes → Bytes
escape_into [] out = out
escape_into (byte ∷ bytes) out = escape_into bytes (
    if byte == flag || byte == escape
    then (out ++ escape ∷ []) ++ bit_xor byte escape_xor ∷ []
    else out ++ byte ∷ [])

unfoldable pub encode : Bytes → Bytes
encode payload =
    let fcs = frame_fcs payload in
    let framed = flag ∷ [] in
    let framed1 = escape_into payload framed in
    let framed2 = escape_into (u16_to_le_bytes fcs) framed1 in framed2 ++ flag ∷ []

-- The loop of `decode` over the bytes between the flags, with its two variables.
unfoldable pub unescape : Bytes → Bool → Bytes → Result Error (Bytes × Bool)
unescape [] escaped unescaped = ok (unescaped, escaped)
unescape (byte ∷ rest) true unescaped =
    unescape rest false (unescaped ++ bit_xor byte escape_xor ∷ [])
unescape (byte ∷ rest) false unescaped =
    let escaping = unescape rest true unescaped in
    let plain = unescape rest false (unescaped ++ byte ∷ []) in
    if byte == escape then escaping else if byte == flag then err unexpected_flag else plain

abbrev pub is_flag : Option ℕ → Bool
is_flag none = false
is_flag (some byte) = byte == flag

-- What `decode` does once the loop is over.
unfoldable pub finish : Bytes × Bool → Result Error Bytes
finish (unescaped, escaped) = do
  ensure (not escaped) dangling_escape
  ensure (leb 2 (length unescaped)) missing_fcs
  let payload_len = length unescaped - 2
  let payload = take payload_len unescaped
  let received_fcs =
      u16_from_le_bytes (get_or unescaped payload_len 0) (get_or unescaped (payload_len + 1) 0)
  ensure (frame_fcs payload == received_fcs) fcs_mismatch
  ok payload

unfoldable pub decode : Bytes → Result Error Bytes
decode frame = do
  ensure (leb (length frame) max_frame_size) frame_too_large
  ensure (leb 4 (length frame)) frame_too_short
  ensure (is_flag (first frame)) no_opening_flag
  ensure (is_flag (last frame)) no_closing_flag
  body ← unescape (take (length frame - 2) (drop 1 frame)) false []
  finish body
