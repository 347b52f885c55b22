-- ===== src/Backoff/Examples.antt =====
-- Delays with samples in percent.
use runscaler.Base.{ℕ, ◌*◌, ◌/◌, ◌-◌, ◌^◌, ◌≤◌, ◌<◌, min, ◌⊎◌, ◌≡◌, refl, true, false, arith, ltb}
use runscaler.Backoff.{Float, default_retry, retry_is_valid, delay}
use runscaler.Backoff.Bounds.{delay_lem}
use native.Mathlib.Nat.{mul-le-mul_left}

pub below_irrefl : (x : ℕ) → ltb x x ≡ false
below_irrefl x = ground arith

pub share-le : (d x : ℕ) → ltb 100 x ≡ false → d * x / 100 ≤ d
share-le d x h = let h' : x ≤ 100 = ground arith in omega (arith, mul-le-mul_left d h')

abbrev pub percent : Float
percent = record {
  F = ℕ;
  nought = 0;
  one = 100;
  lt = ltb;
  scale = λ d x. d * x / 100;
  lt_irrefl = below_irrefl;
  nought_one = refl;
  scale-le = λ d x _ _ h. share-le d x h;
}

pub default-valid : retry_is_valid default_retry ≡ true
unfolding retry_is_valid
default-valid = refl

delay_lem_example :
    let d = delay percent 3 5000000000 60000000000 300000000000 5 50 in
    let base = min 60000000000 (5000000000 * 2 ^ (3 - 1)) in
    ((◌≡◌ {A = ℕ} 3 0) × (d ≡ 0))
    ⊎ ((5 ≤ 3) × (d ≡ 300000000000))
    ⊎ ((0 < 3) × (3 < 5) × (base / 2 ≤ d) × (d ≤ base))
delay_lem_example = delay_lem percent default_retry 3 50 default-valid (omega arith)
