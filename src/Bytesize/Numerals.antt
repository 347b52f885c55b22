-- ===== src/Bytesize/Numerals.antt =====
-- Decimal numerals, and what `strconv.ParseUint` reads in them.
use runscaler.Base.{
  ℕ, zero, suc, ◌+◌, ◌-◌, ◌*◌, ◌/◌, ◌%◌, ◌<◌, ◌^◌, ◌≡◌, refl, ap, sym, ◌∙◌, inl, inr, String, true,
  false, some, arith, ltb, ◌==◌, if◌then◌else◌, Bool-cases, str_eq, eq_iff, ltb→lt,
}
use mathlib.Core.Option.{none-ne-some, some-injective}
use text.Mathlib.TextLemmas.{nil-append, cons-append, length-append, length-cons}
use Prim.Native.String.{count}
use Prim.Native.Char.{Char, code}
use runscaler.Base.Strings.{◌<>◌}
use runscaler.Bytesize.{value_from, is_digit, parse_uint}

abbrev pub digit_char : ℕ → Char
digit_char n =
    if n == 0
    then "0"
    else if n == 1
    then "1"
    else if n == 2
    then "2"
    else if n == 3
    then "3"
    else if n == 4
    then "4"
    else if n == 5
    then "5"
    else if n == 6
    then "6"
    else if n == 7
    then "7"
    else if n == 8
    then "8"
    else "9"

-- The decimal numeral of a number below the fuel.
unfoldable pub decimal_from : ℕ → ℕ → String
decimal_from zero n = String.[]
decimal_from (suc f) n =
    let rest = decimal_from f (n / 10) in
    if ltb n 10
    then String.◌∷◌ (digit_char n) String.[]
    else rest <> String.◌∷◌ (digit_char (n % 10)) String.[]

abbrev pub decimal : ℕ → String
decimal n = decimal_from (suc n) n

code-digit_char : (n : ℕ) → n < 10 → code (digit_char n) ≡ 48 + n
code-digit_char zero h = refl
code-digit_char (suc zero) h = refl
code-digit_char (suc (suc zero)) h = refl
code-digit_char (suc (suc (suc zero))) h = refl
code-digit_char (suc (suc (suc (suc zero)))) h = refl
code-digit_char (suc (suc (suc (suc (suc zero))))) h = refl
code-digit_char (suc (suc (suc (suc (suc (suc zero)))))) h = refl
code-digit_char (suc (suc (suc (suc (suc (suc (suc zero))))))) h = refl
code-digit_char (suc (suc (suc (suc (suc (suc (suc (suc zero)))))))) h = refl
code-digit_char (suc (suc (suc (suc (suc (suc (suc (suc (suc zero))))))))) h = refl
code-digit_char (suc (suc (suc (suc (suc (suc (suc (suc (suc (suc n)))))))))) h =
    absurd (omega (arith, h))

value_from-append :
    (n : ℕ) (s : String) (c : Char)
    → is_digit c ≡ true
    → (m : ℕ) → value_from n s ≡ some m
    → value_from n (s <> String.◌∷◌ c String.[]) ≡ some (m * 10 + (code c - 48))
unfolding value_from
value_from-append n String.[] c d m h =
    rw (nil-append (String.◌∷◌ c String.[]), d)
      (ap (λ k. some (k * 10 + (code c - 48))) (some-injective n m h))
value_from-append n (String.◌∷◌ e s) c d m h = elim (Bool-cases (is_digit e)) [
  | inr k ↦ absurd (none-ne-some m (rw k at h))
  | inl k ↦
      rw (cons-append e s (String.◌∷◌ c String.[]), k)
        (value_from-append (n * 10 + (code e - 48)) s c d m (rw k at h))
]

is_digit-digit_char : (n : ℕ) → n < 10 → is_digit (digit_char n) ≡ true
is_digit-digit_char n h = rw (code-digit_char n h) (ground (arith, h))

below-tenth : (f n : ℕ) → n < suc f → ltb n 10 ≡ false → n / 10 < f
below-tenth f n h k = ground (arith, h, k)

digit_value : (n : ℕ) → 0 + (48 + n - 48) ≡ n
digit_value n = omega arith

tenth_rest : (n : ℕ) → n / 10 * 10 + (48 + n % 10 - 48) ≡ n
tenth_rest n = omega arith

-- A numeral is read as its number.
value_from-decimal_from : (f n : ℕ) → n < f → value_from 0 (decimal_from f n) ≡ some n
unfolding decimal_from value_from
value_from-decimal_from zero n h = absurd (omega (arith, h))
value_from-decimal_from (suc f) n h = elim (Bool-cases (ltb n 10)) [
  | inl small ↦
      rw (small, is_digit-digit_char n (ltb→lt n 10 small))
        (rw (code-digit_char n (ltb→lt n 10 small)) (ap some (digit_value n)))
  | inr large ↦ rw large (
      value_from-append 0 (decimal_from f (n / 10)) (digit_char (n % 10))
        (is_digit-digit_char (n % 10) (omega arith)) (n / 10)
        (value_from-decimal_from f (n / 10) (below-tenth f n h large))
      ∙ rw (code-digit_char (n % 10) (omega arith)) (ap some (tenth_rest n)))
]

appended_digit : (s : String) (c : Char) → str_eq (s <> String.◌∷◌ c String.[]) "" ≡ false
appended_digit s c = elim (Bool-cases (str_eq (s <> String.◌∷◌ c String.[]) "")) [
  | inr e ↦ e
  | inl e ↦
      let k = ap count ((eq_iff (s <> String.◌∷◌ c String.[]) "").0 e) in
      absurd (omega (arith, k, length-append s (String.◌∷◌ c String.[]), length-cons c String.[]))
]

pub decimal-nonempty : (f n : ℕ) → n < f → str_eq (decimal_from f n) "" ≡ false
unfolding decimal_from
decimal-nonempty zero n h = absurd (omega (arith, h))
decimal-nonempty (suc f) n h = elim (Bool-cases (ltb n 10)) [
  | inl small ↦
      let c = digit_char n in
      rw small (
        ap (λ s. str_eq s "") (sym (nil-append (String.◌∷◌ c String.[])))
        ∙ appended_digit String.[] c)
  | inr large ↦ rw large (appended_digit (decimal_from f (n / 10)) (digit_char (n % 10)))
]

-- `ParseUint` reads back the numeral of every number that a word holds.
pub parse_uint-decimal : (n : ℕ) → n < 2 ^ 64 → parse_uint (decimal n) ≡ some n
unfolding parse_uint
parse_uint-decimal n h =
    rw (decimal-nonempty (suc n) n (omega arith), value_from-decimal_from (suc n) n (omega arith))
      (ground (arith, h))
