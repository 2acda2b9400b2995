-- ===== src/Duration.antt =====
-- src/lib.rs: `parse_duration`. Text is a list of character codes, and a duration is its seconds.
pub mod Parsed
mod Runs
use axsh.Prelude.{
  ℕ, ◌+◌, ◌-◌, ◌*◌, ◌/◌, ◌^◌, Bytes, is_empty, [], ◌∷◌, ◌&&◌, ltb, leb, ◌==◌, Option, none, some,
  if◌then◌else◌, Result, ok, err, ◌>>=◌, ok_or, map_err,
}

-- `std::num::IntErrorKind`
pub data NumberError : Type 0 where
  empty invalid_digit pos_overflow : NumberError

-- `overflow_panic` is the panic of `Duration::from_mins` and `Duration::from_hours`.
pub data DurationError : Type 0 where
  number : NumberError → DurationError
  overflow_panic : DurationError

-- `to_digit(10)`
unfoldable pub to_digit : ℕ → Option ℕ
to_digit b = if leb 48 b && leb b 57 then some (b - 48) else none

abbrev pub unless_overflow : ℕ → Result NumberError ℕ
unless_overflow n = if ltb n (2 ^ 64) then ok n else err pos_overflow

-- The loop of `u64::from_str`, with the number so far.
unfoldable pub parse_digits : ℕ → Bytes → Result NumberError ℕ
parse_digits n [] = ok n
parse_digits n (b ∷ rest) = do
  digit ← ok_or (to_digit b) invalid_digit
  more ← unless_overflow (n * 10 + digit)
  parse_digits more rest

-- `u64::from_str`: one plus sign may stand before the digits.
unfoldable pub parse_u64 : Bytes → Result NumberError ℕ
parse_u64 [] = err empty
parse_u64 (b ∷ rest) =
    if b == 43
    then if is_empty rest then err invalid_digit else parse_digits 0 rest
    else parse_digits 0 (b ∷ rest)

-- `strip_suffix` of one character.
abbrev pub keep : ℕ → Option Bytes → Option Bytes
keep b none = none
keep b (some rest) = some (b ∷ rest)

unfoldable pub strip_suffix : ℕ → Bytes → Option Bytes
strip_suffix c [] = none
strip_suffix c (b ∷ []) = if b == c then some [] else none
strip_suffix c (b ∷ (x ∷ rest)) = keep b (strip_suffix c (x ∷ rest))

-- `from_secs`, `from_mins` and `from_hours`, by the seconds of a unit.
abbrev pub of_units : ℕ → ℕ → Result DurationError ℕ
of_units unit n = if leb n ((2 ^ 64 - 1) / unit) then ok (n * unit) else err overflow_panic

unfoldable pub parsed_units : ℕ → Bytes → Result DurationError ℕ
parsed_units unit text = do n ← map_err number (parse_u64 text); of_units unit n

abbrev pub or_suffix : Option Bytes → ℕ → Result DurationError ℕ → Result DurationError ℕ
or_suffix none unit other = other
or_suffix (some text) unit other = parsed_units unit text

unfoldable pub parse_duration : Bytes → Result DurationError ℕ
parse_duration arg = or_suffix (strip_suffix 115 arg) 1 (
    or_suffix (strip_suffix 109 arg) 60
      (or_suffix (strip_suffix 104 arg) 3600 (parsed_units 1 arg)))
