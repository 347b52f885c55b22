-- ===== src/Bytesize/Examples.antt =====
-- A size that overflows, with percentages that are natural numbers.
use runscaler.Base.{ℕ, ◌≡◌, refl, ◌%◌, ◌^◌, ◌*◌, arith, leb, ltb}
use runscaler.Base.Strings.{◌<>◌}
use runscaler.Bytesize.{Float64, parse_threshold, parse_uint}
use runscaler.Bytesize.Numerals.{decimal}
use runscaler.Bytesize.RoundTrip.{tera, suffix_of, bytes_per, of_bytes, parse_threshold-decimal}

abbrev whole : Float64
whole = record {
  Percent = ℕ;
  nought = 0;
  hundred = 100;
  parse_float = parse_uint;
  to_upper = λ s. s;
  at_least = λ a b. leb b a;
  below = ltb;
}

-- 2^24 terabytes are 0 bytes.
parse_threshold-decimal_example :
    parse_threshold whole (decimal 16777216 <> suffix_of tera)
    ≡ of_bytes whole (16777216 * bytes_per tera % 2 ^ 64)
parse_threshold-decimal_example = parse_threshold-decimal whole 16777216 tera (omega arith) refl
