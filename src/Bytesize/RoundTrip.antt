-- ===== src/Bytesize/RoundTrip.antt =====
-- `ParseThreshold` of internal/bytesize/threshold.go on the sizes that its comment names.

use text.Mathlib.TextLemmas.{nil-append, cons-append, length-append, length-cons}
use Prim.Native.String.{count}
use Prim.Native.Char.{Char}
use runscaler.Base.{
  ℕ, suc, ◌*◌, ◌%◌, ◌≤◌, ◌<◌, ◌^◌, ◌≡◌, refl, ap, inl, inr, String, str_eq, eq_iff, eq_refl, false,
  Option, none, some, arith, Bool-cases,
}
use runscaler.Base.Strings.{◌<>◌, cut_suffix}
use runscaler.Bytesize.{Float64, Threshold, parse_size, parse_threshold, with_unit, byte_units}
use runscaler.Bytesize.Numerals.{decimal, parse_uint-decimal, decimal-nonempty}

longer : (c : Char) (s u v : String) → count v ≤ count u → str_eq (String.◌∷◌ c (s <> u)) v ≡ false
longer c s u v h = elim (Bool-cases (str_eq (String.◌∷◌ c (s <> u)) v)) [
  | inr e ↦ e
  | inl e ↦
      let k = ap count ((eq_iff (String.◌∷◌ c (s <> u)) v).0 e) in
      absurd (omega (arith, k, h, length-append s u, length-cons c (s <> u)))
]

cut_suffix_self : (u : String) → cut_suffix u u ≡ some ""
unfolding cut_suffix
cut_suffix_self String.[] = refl
cut_suffix_self (String.◌∷◌ c u) = rw (eq_refl (String.◌∷◌ c u)) refl

-- The suffix that was put there is cut off.
cut_suffix-append : (s u : String) → cut_suffix (s <> u) u ≡ some s
unfolding cut_suffix
cut_suffix-append String.[] u = rw (nil-append u) (cut_suffix_self u)
cut_suffix-append (String.◌∷◌ c s) u =
    rw (cons-append c s u, longer c s u u (omega arith), cut_suffix-append s u) refl

-- No other suffix that is not longer is found.
cut_suffix-none :
    (s u v : String) → count v ≤ count u → cut_suffix u v ≡ none → cut_suffix (s <> u) v ≡ none
unfolding cut_suffix
cut_suffix-none String.[] u v h e = rw (nil-append u) e
cut_suffix-none (String.◌∷◌ c s) u v h e =
    rw (cons-append c s u, longer c s u v h, cut_suffix-none s u v h e) refl

two : 2 ≤ 2
two = omega arith

one : 1 ≤ 2
one = omega arith

no_unit :
    (s u v : String) → (count v ≤ count u) × (cut_suffix u v ≡ none) → cut_suffix (s <> u) v ≡ none
no_unit s u v (h, e) = cut_suffix-none s u v h e

-- The units with two letters.
pub data BinaryUnit : Type 0 where
  kilo mega giga tera : BinaryUnit

abbrev pub suffix_of : BinaryUnit → String
suffix_of kilo = "KB"
suffix_of mega = "MB"
suffix_of giga = "GB"
suffix_of tera = "TB"

abbrev pub bytes_per : BinaryUnit → ℕ
bytes_per kilo = 1024
bytes_per mega = 1024 ^ 2
bytes_per giga = 1024 ^ 3
bytes_per tera = 1024 ^ 4

module _ (fl : Float64) where
  open fl use {nought, to_upper}

  abbrev pub of_bytes : ℕ → Option (Threshold fl)
  of_bytes n = some (record { percent = nought; bytes = n })

  sized-decimal :
      (n m : ℕ) (rest : Option (Threshold fl))
      → n < 2 ^ 64
      → with_unit fl m rest (some (decimal n)) ≡ of_bytes (n * m % 2 ^ 64)
  sized-decimal n m rest h =
      rw (decimal-nonempty (suc n) n (omega arith), parse_uint-decimal n h) refl

  parse_size-decimal :
      (n : ℕ) (u : BinaryUnit)
      → n < 2 ^ 64
      → parse_size fl byte_units (decimal n <> suffix_of u) ≡ of_bytes (n * bytes_per u % 2 ^ 64)
  unfolding parse_size cut_suffix
  parse_size-decimal n tera h = rw (cut_suffix-append (decimal n) "TB") (sized-decimal n _ _ h)
  parse_size-decimal n giga h =
      rw (no_unit (decimal n) "GB" "TB" (two, refl), cut_suffix-append (decimal n) "GB")
        (sized-decimal n _ _ h)
  parse_size-decimal n mega h =
      rw
        (
          no_unit (decimal n) "MB" "TB" (two, refl),
          no_unit (decimal n) "MB" "GB" (two, refl),
          cut_suffix-append (decimal n) "MB",
        )
        (sized-decimal n _ _ h)
  parse_size-decimal n kilo h =
      rw
        (
          no_unit (decimal n) "KB" "TB" (two, refl),
          no_unit (decimal n) "KB" "GB" (two, refl),
          no_unit (decimal n) "KB" "MB" (two, refl),
          cut_suffix-append (decimal n) "KB",
        )
        (sized-decimal n _ _ h)

  no_percentage : (s : String) (u : BinaryUnit) → cut_suffix (s <> suffix_of u) "%" ≡ none
  unfolding cut_suffix
  no_percentage s kilo = no_unit s "KB" "%" (one, refl)
  no_percentage s mega = no_unit s "MB" "%" (one, refl)
  no_percentage s giga = no_unit s "GB" "%" (one, refl)
  no_percentage s tera = no_unit s "TB" "%" (one, refl)

  -- A size of a number below 2^64 and one of the units KB, MB, GB and TB, which `ToUpper` leaves as
  -- it is, is read as a threshold of that many bytes, modulo 2^64: a product that does not fit wraps
  -- around and is not refused.
  pub parse_threshold-decimal :
      (n : ℕ) (u : BinaryUnit)
      → n < 2 ^ 64
      → to_upper (decimal n <> suffix_of u) ≡ decimal n <> suffix_of u
      → parse_threshold fl (decimal n <> suffix_of u) ≡ of_bytes (n * bytes_per u % 2 ^ 64)
  unfolding parse_threshold
  parse_threshold-decimal n u h upper =
      rw (no_percentage (decimal n) u, upper) (parse_size-decimal n u h)
