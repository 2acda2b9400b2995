-- ===== src/Duration/Runs.antt =====
-- Runs of `parse_duration` of src/lib.rs, and its theorems at their inputs.
use axsh.Prelude.{◌*◌, ◌≡◌, refl, ◌++◌, ok, err, arith}
use axsh.Base64.{codes}
use axsh.Duration.{
  NumberError, pos_overflow, number, overflow_panic, to_digit, parse_digits, parse_u64,
  strip_suffix, parsed_units, parse_duration,
}
use axsh.Duration.Parsed.{value, seconds, parse_duration-value, parse_duration-ms}

five_minutes : parse_duration (codes "5m") ≡ ok 300
unfolding parse_duration strip_suffix parsed_units parse_u64 parse_digits to_digit
five_minutes = refl

too_many_hours : parse_duration (codes "18446744073709551615h") ≡ err overflow_panic
unfolding parse_duration strip_suffix parsed_units parse_u64 parse_digits to_digit
too_many_hours = refl

too_big : parse_duration (codes "18446744073709551616") ≡ err (number pos_overflow)
unfolding parse_duration strip_suffix parsed_units parse_u64 parse_digits to_digit
too_big = refl

parse_duration-value_example :
    (parse_duration (codes "12") ≡ seconds (value (codes "12")))
    × (parse_duration (codes "12" ++ codes "s") ≡ seconds (value (codes "12")))
    × (parse_duration (codes "12" ++ codes "m") ≡ seconds (value (codes "12") * 60))
    × (parse_duration (codes "12" ++ codes "h") ≡ seconds (value (codes "12") * 3600))
unfolding value
parse_duration-value_example =
    parse_duration-value (codes "12") ((omega arith, omega arith), ((omega arith, omega arith), tt))
      (omega arith) (omega arith)

parse_duration-ms_example :
    (e : NumberError) × (parse_duration (codes "500" ++ codes "ms") ≡ err (number e))
parse_duration-ms_example = parse_duration-ms (codes "500")
