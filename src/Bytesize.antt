-- ===== src/Bytesize.antt =====
-- internal/bytesize/threshold.go: `ParseThreshold`. The unsigned multiplication wraps at 2^64.
-- `strings.ToUpper` and `strconv.ParseFloat` are a parameter, with Go's comparisons of `float64`; `none`
-- is an error of `ParseFloat`.
pub mod Numerals
pub mod RoundTrip
mod Examples
use runscaler.Base.{
  ℕ, zero, suc, ◌+◌, ◌-◌, ◌*◌, ◌%◌, ◌^◌, String, str_eq, Bool, true, false, ◌&&◌, Option, none,
  some, List, [], ◌∷◌, ltb, leb, if◌then◌else◌,
}
use runscaler.Base.Strings.{cut_suffix}
use Prim.Native.Char.{Char, code}

pub record Float64 : Type 1 where
  pub Percent : Type 0
  pub nought : Percent
  pub hundred : Percent
  pub parse_float : String → Option Percent
  pub to_upper : String → String
  -- `>=` and `<`
  pub at_least : Percent → Percent → Bool
  pub below : Percent → Percent → Bool

abbrev pub byte_units : List (String × ℕ)
byte_units =
    ("TB", 1024 * 1024 * 1024 * 1024)
    ∷ ("GB", 1024 * 1024 * 1024)
    ∷ ("MB", 1024 * 1024)
    ∷ ("KB", 1024)
    ∷ ("B", 1)
    ∷ []

abbrev pub is_digit : Char → Bool
is_digit c = leb 48 (code c) && leb (code c) 57

-- The digits of a text after those of `n`.
unfoldable pub value_from : ℕ → String → Option ℕ
value_from n String.[] = some n
value_from n (String.◌∷◌ c s) =
    let rest = value_from (n * 10 + (code c - 48)) s in if is_digit c then rest else none

abbrev pub in_range : Option ℕ → Option ℕ
in_range none = none
in_range (some n) = if ltb n (2 ^ 64) then some n else none

-- `strconv.ParseUint(s, 10, 64)`.
unfoldable pub parse_uint : String → Option ℕ
parse_uint s = if str_eq s "" then none else in_range (value_from 0 s)

module _ (fl : Float64) where
  open fl use {Percent, nought, hundred, parse_float, to_upper, at_least}

  pub record Threshold : Type 0 where
    pub percent : Percent
    pub bytes : ℕ

  abbrev pub sized : ℕ → Option Threshold → Option ℕ → Option Threshold
  sized multiplier rest none = rest
  sized multiplier rest (some n) =
      some (record { percent = nought; bytes = n * multiplier % 2 ^ 64 })

  abbrev pub with_unit : ℕ → Option Threshold → Option String → Option Threshold
  with_unit multiplier rest none = rest
  with_unit multiplier rest (some num) =
      if str_eq num "" then rest else sized multiplier rest (parse_uint num)

  -- The loop over the units.
  unfoldable pub parse_size : List (String × ℕ) → String → Option Threshold
  unfolding parse_uint
  parse_size [] upper = none
  parse_size ((suffix, multiplier) ∷ units) upper =
      with_unit multiplier (parse_size units upper) (cut_suffix upper suffix)

  -- From 0 to 100. Go's `a <= b` is `b >= a`, also where one of them is NaN.
  abbrev pub in_percent : Percent → Bool
  in_percent p = at_least p nought && at_least hundred p

  abbrev pub of_percent : Option Percent → Option Threshold
  of_percent none = none
  of_percent (some p) = if in_percent p then some (record { percent = p; bytes = 0 }) else none

  abbrev pub sorted_out : String → Option String → Option Threshold
  sorted_out s none = parse_size byte_units (to_upper s)
  sorted_out s (some rest) = of_percent (parse_float rest)

  unfoldable pub parse_threshold : String → Option Threshold
  unfolding parse_size
  parse_threshold s = sorted_out s (cut_suffix s "%")
