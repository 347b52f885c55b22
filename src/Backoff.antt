-- ===== src/Backoff.antt =====
-- internal/backoff/backoff.go and the retry settings of internal/config/reliability.go.
-- Durations are nanoseconds. `float64` is not code of the program: it is a parameter.
pub mod Bounds
pub mod Examples
use runscaler.Base.{
  ℕ, zero, suc, ◌+◌, ◌-◌, ◌*◌, ◌/◌, ◌≤◌, ◌^◌, ◌≡◌, Bool, true, false, ◌||◌, Option, none, some, ltb,
  leb, if◌then◌else◌,
}

-- What the jitter uses of `float64`, with `scale d x` for `time.Duration(float64(d) * x)`. Up to
-- 2^53 a whole number of nanoseconds is exact, so a factor of at most one does not enlarge it.
pub record Float : Type 1 where
  pub F : Type 0
  pub nought : F
  pub one : F
  pub lt : F → F → Bool
  pub scale : ℕ → F → ℕ
  pub lt_irrefl : (x : F) → lt x x ≡ false
  pub nought_one : lt one nought ≡ false
  pub scale-le :
      (d : ℕ) (x : F) → d ≤ 2 ^ 53 → lt x nought ≡ false → lt one x ≡ false → scale d x ≤ d

-- The loop of `Delay` over the failures left.
unfoldable pub grow : ℕ → ℕ → ℕ → ℕ
grow zero maximum delay = delay
grow (suc n) maximum delay =
    let again = grow n maximum (delay * 2) in
    if ltb delay maximum then if ltb (maximum / 2) delay then maximum else again else delay

abbrev pub at_most : ℕ → ℕ → ℕ
at_most maximum delay = if ltb maximum delay then maximum else delay

module _ (fl : Float) where
  open fl use {F, nought, one, lt, scale}

  abbrev pub clamp : F → F
  clamp x = let y = if lt x nought then nought else x in if lt one y then one else y

  abbrev pub jittered : ℕ → F → ℕ
  jittered delay x = delay / 2 + scale (delay - delay / 2) (clamp x)

  unfoldable pub delay : ℕ → ℕ → ℕ → ℕ → ℕ → F → ℕ
  delay failures initial maximum cooldown cooldown_after sample =
      if leb failures 0
      then 0
      else if leb cooldown_after failures
      then cooldown
      else jittered (at_most maximum (grow (failures - 1) maximum initial)) sample

pub record RetryConfig : Type 0 where
  pub initial : ℕ
  pub maximum : ℕ
  pub cooldown_after : ℕ
  pub cooldown : ℕ

-- 5 s, 1 min, 5 failures, 5 min.
abbrev pub default_retry : RetryConfig
default_retry = record {
  initial = 5000000000;
  maximum = 60000000000;
  cooldown_after = 5;
  cooldown = 300000000000;
}

unfoldable pub retry_is_valid : RetryConfig → Bool
retry_is_valid r =
    if leb r.initial 0
      || ltb r.maximum r.initial
      || ltb r.cooldown r.maximum
      || ltb r.cooldown_after 1
    then false
    else true

unfoldable pub effective_retry : Option RetryConfig → RetryConfig
effective_retry (some r) = r
effective_retry none = default_retry
