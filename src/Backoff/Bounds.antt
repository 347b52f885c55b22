-- ===== src/Backoff/Bounds.antt =====
-- The delay of internal/backoff/backoff.go against its closed form.
use runscaler.Base.{
  ℕ, zero, suc, ◌-◌, ◌*◌, ◌/◌, ◌^◌, ◌≤◌, ◌<◌, min, ◌⊎◌, ◌≡◌, refl, ap, true, arith, ltb, leb,
  Bool-cases, inl, inr,
}
use native.Mathlib.Nat.{pow-suc}
use runscaler.Backoff.{Float, grow, jittered, delay, RetryConfig, retry_is_valid}

pow_pos : (n : ℕ) → 1 ≤ 2 ^ n
pow_pos zero = omega arith
pow_pos (suc n) = omega (arith, pow-suc 2 n, pow_pos n)

two_more : (d n : ℕ) → d * 2 ^ suc n ≡ d * 2 * 2 ^ n
two_more d n = omega (arith, ap (λ (t : ℕ). d * t) (pow-suc 2 n))

at_least : (d n : ℕ) → d ≤ d * 2 ^ n
at_least d n = grind (arith, pow_pos n)

-- Doubling up to the maximum, as a closed form.
grow_lem : (n maximum d : ℕ) → d ≤ maximum → grow n maximum d ≡ min maximum (d * 2 ^ n)
unfolding grow
grow_lem zero maximum d h = omega arith
grow_lem (suc n) maximum d h = elim (Bool-cases (ltb d maximum)) [
  | inr full ↦ rw full (ground (arith, at_least d (suc n), full))
  | inl more ↦ rw more (elim (Bool-cases (ltb (maximum / 2) d)) [
    | inl half ↦ rw half (ground (arith, two_more d n, at_least (d * 2) n))
    | inr low ↦ rw low (ground (arith, two_more d n, grow_lem n maximum (d * 2)))
  ])
]

module _ (fl : Float) where
  open fl use {F, nought, one, lt, scale, scale-le, lt_irrefl, nought_one}

  jittered_bounds : (d : ℕ) (x : F) → d ≤ 2 ^ 53 → (d / 2 ≤ jittered fl d x) × (jittered fl d x ≤ d)
  jittered_bounds d x h = elim (Bool-cases (lt x nought)) [
    | inl low ↦
        rw (low, nought_one)
          (ground (arith, scale-le (d - d / 2) nought, lt_irrefl nought, nought_one))
    | inr ok ↦ rw ok (elim (Bool-cases (lt one x)) [
      | inl high ↦ rw high (ground (arith, scale-le (d - d / 2) one, lt_irrefl one, nought_one))
      | inr within ↦ rw within (ground (arith, scale-le (d - d / 2) x))
    ])
  ]

  -- With a valid configuration whose maximum is a number that a float64 holds exactly: no failure
  -- means no delay; from the threshold on the delay is the cooldown; between them it lies in the
  -- upper half of the initial delay doubled once for each failure but the first, capped at the
  -- maximum, whatever the random sample is.
  pub delay_lem :
      (r : RetryConfig) (failures : ℕ) (sample : F)
      → retry_is_valid r ≡ true
      → r.maximum ≤ 2 ^ 53
      → let d = delay fl failures r.initial r.maximum r.cooldown r.cooldown_after sample in
        let base = min r.maximum (r.initial * 2 ^ (failures - 1)) in
        ((failures ≡ 0) × (d ≡ 0))
        ⊎ ((r.cooldown_after ≤ failures) × (d ≡ r.cooldown))
        ⊎ ((0 < failures) × (failures < r.cooldown_after) × (base / 2 ≤ d) × (d ≤ base))
  unfolding delay retry_is_valid
  delay_lem r failures sample ok h =
      let base = min r.maximum (r.initial * 2 ^ (failures - 1)) in
      elim (Bool-cases (leb failures 0)) [
        | inl e ↦ inl (ground arith, rw e refl)
        | inr e ↦ elim (Bool-cases (leb r.cooldown_after failures)) [
          | inl k ↦ inr (inl (ground arith, rw (e, k) refl))
          | inr k ↦ inr (
              inr (
                ground arith,
                ground arith,
                ground (
                  arith,
                  grow_lem (failures - 1) r.maximum r.initial,
                  jittered_bounds base sample,
                ),
                ground (
                  arith,
                  grow_lem (failures - 1) r.maximum r.initial,
                  jittered_bounds base sample,
                ),
              ))
        ]
      ]
