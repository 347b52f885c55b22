-- ===== src/Config/DiskGuard.antt =====
-- `DiskConfig.Validate` of internal/config/config.go.
use runscaler.Base.{
  ◌<◌, ◌≤◌, ℕ, ◌⊎◌, inl, inr, Bool-cases, ◌≡◌, refl, sym, subst, zero, suc, String, str_eq, Bool,
  true, false, ◌&&◌, ◌||◌, not, Option, none, some, is_some, arith, leb, if◌then◌else◌,
}
use mathlib.Core.Option.{some-ne-none, some-injective}
use runscaler.Base.Int.{ℤ, pos, negsuc, leb_ℤ, ltb_ℤ}
use runscaler.Base.Strings.{cut_suffix}
use runscaler.Bytesize.{Float64, Threshold, parse_threshold, in_percent, of_percent, sorted_out}
use runscaler.Config.Settings.{DiskConfig}

pub data DiskError : Type 0 where
  bad_min_free bad_target_free mixed_units min_not_below_target bad_max_tier : DiskError

-- An early return.
unfoldable pub refuse {ℓ} : {E : Type ℓ} → Bool → E → Option E → Option E
refuse true e rest = some e
refuse false e rest = rest

pub passes :
    {E : Type 0} (c : Bool) (e : E) (rest : Option E)
    → refuse c e rest ≡ none
    → (c ≡ false) × (rest ≡ none)
unfolding refuse
passes true e rest h = absurd (some-ne-none e h)
passes false e rest h = (refl, h)

abbrev pub or_text : String → String → String
or_text default s = if str_eq s "" then default else s

abbrev pub is_percentage : String → Bool
is_percentage s = is_some (cut_suffix s "%")

-- Zero is not set: then it is 3.
abbrev pub tier_of : ℤ → ℤ
tier_of t = if leb_ℤ t (pos 0) && leb_ℤ (pos 0) t then pos 3 else t

module _ (fl : Float64) where
  open fl use {Percent, at_least, below}

  abbrev pub min_reaches_target : Bool → Threshold fl → Threshold fl → Bool
  min_reaches_target percent low target =
      if percent then at_least low.percent target.percent else leb target.bytes low.bytes

  abbrev pub checked_thresholds :
      DiskConfig → Bool → Bool → Option (Threshold fl) → Option (Threshold fl) → Option DiskError
  checked_thresholds dc p q none _ = some bad_min_free
  checked_thresholds dc p q (some low) none = some bad_target_free
  checked_thresholds dc p q (some low) (some target) =
      refuse (p && not q || not p && q) mixed_units (
        refuse (min_reaches_target p low target) min_not_below_target (
          refuse (ltb_ℤ (tier_of dc.max_tier) (pos 1) || ltb_ℤ (pos 4) (tier_of dc.max_tier))
            bad_max_tier none))

  unfoldable pub validate_disk : DiskConfig → Option DiskError
  unfolding parse_threshold
  validate_disk dc =
      let low = or_text "10%" dc.min_free in
      let target = or_text "20%" dc.target_free in
      checked_thresholds dc (is_percentage low) (is_percentage target) (parse_threshold fl low)
        (parse_threshold fl target)

  -- Go's comparisons of two percentages, neither of which is NaN.
  abbrev pub Comparable : Type 0
  Comparable =
      (a b : Percent)
      → in_percent fl a ≡ true
      → in_percent fl b ≡ true
      → at_least a b ≡ false
      → below a b ≡ true

  -- Two percentages or two sizes, the first below the second.
  abbrev pub Before : Bool → Bool → Threshold fl → Threshold fl → Type 0
  Before p q low target =
      ((p ≡ true) × (q ≡ true) × (below low.percent target.percent ≡ true))
      ⊎ ((p ≡ false) × (q ≡ false) × (low.bytes < target.bytes))

  parse_threshold-in_percent :
      (s : String) (t : Threshold fl)
      → parse_threshold fl s ≡ some t
      → is_percentage s ≡ true
      → in_percent fl t.percent ≡ true
  unfolding parse_threshold
  parse_threshold-in_percent s t h p = read (cut_suffix s "%") h p
    where
      of_read : (o : Option Percent) → of_percent fl o ≡ some t → in_percent fl t.percent ≡ true
      of_read none k = absurd (some-ne-none _ (sym k))
      of_read (some x) k = elim (Bool-cases (in_percent fl x)) [
        | inl e ↦
            subst (λ (u : Threshold fl). in_percent fl u.percent ≡ true)
              (some-injective _ _ (rw e at k)) e
        | inr e ↦ absurd (some-ne-none _ (sym (rw e at k)))
      ]

      read :
          (o : Option String)
          → sorted_out fl s o ≡ some t
          → is_some o ≡ true
          → in_percent fl t.percent ≡ true
      read none h p = absurd (ground (arith, p))
      read (some rest) h p = of_read (fl.parse_float rest) h

  in_order :
      (comparable : Comparable) (p q : Bool) (low target : Threshold fl)
      → (p ≡ true → in_percent fl low.percent ≡ true)
      → (q ≡ true → in_percent fl target.percent ≡ true)
      → (p && not q || not p && q) ≡ false
      → min_reaches_target p low target ≡ false
      → Before p q low target
  in_order comparable true true low target f g u h =
      inl (refl, refl, comparable low.percent target.percent (f refl) (g refl) h)
  in_order comparable false false low target f g u h = inr (refl, refl, ground (arith, h))
  in_order comparable true false low target f g u h = absurd (ground (arith, u))
  in_order comparable false true low target f g u h = absurd (ground (arith, u))

  -- The default, or one of the four tiers.
  abbrev pub IsTier : ℤ → Type 0
  IsTier t = (t ≡ pos 0) ⊎ ((n : ℕ) × (t ≡ pos n) × (1 ≤ n) × (n ≤ 4))

  tier_of-IsTier :
      (t : ℤ) → (ltb_ℤ (tier_of t) (pos 1) || ltb_ℤ (pos 4) (tier_of t)) ≡ false → IsTier t
  tier_of-IsTier (pos zero) h = inl refl
  tier_of-IsTier (pos (suc n)) h = inr (suc n, refl, omega arith, ground (arith, h))
  tier_of-IsTier (negsuc n) h = absurd (ground (arith, h))

  abbrev pub Ordered : DiskConfig → Option (Threshold fl) → Option (Threshold fl) → Type 0
  Ordered dc low target =
      (l : Threshold fl) × (t : Threshold fl) × (low ≡ some l)
      × (target ≡ some t)
      × Before (is_percentage (or_text "10%" dc.min_free))
          (is_percentage (or_text "20%" dc.target_free)) l t
      × IsTier dc.max_tier

  checked-Ordered :
      (comparable : Comparable) (dc : DiskConfig) (low target : Option (Threshold fl))
      → parse_threshold fl (or_text "10%" dc.min_free) ≡ low
      → parse_threshold fl (or_text "20%" dc.target_free) ≡ target
      → checked_thresholds dc
          (is_percentage (or_text "10%" dc.min_free))
          (is_percentage (or_text "20%" dc.target_free))
          low
          target
        ≡ none
      → Ordered dc low target
  checked-Ordered comparable dc none target f g h = absurd (some-ne-none _ h)
  checked-Ordered comparable dc (some low) none f g h = absurd (some-ne-none _ h)
  checked-Ordered comparable dc (some low) (some target) f g h =
      let (unit, h1) = passes _ _ _ h in
      let (order, h2) = passes _ _ _ h1 in
      let (tier, _) = passes _ _ _ h2 in
      (
        low,
        target,
        refl,
        refl,
        in_order comparable _ _ low target (parse_threshold-in_percent _ low f)
            (parse_threshold-in_percent _ target g) unit order,
        tier_of-IsTier dc.max_tier tier,
      )

  -- Where `DiskConfig.Validate` accepts the settings of the disk guard, with the defaults in place
  -- of what is not set: both thresholds can be read and are both percentages or both sizes,
  -- min-free is less than target-free, and max-tier is not set or one of the four tiers. Of `float64`
  -- it takes that of two numbers between 0 and 100 one is below the other or at least it.
  pub validate_disk-Ordered :
      (comparable : (a b : Percent)
        → in_percent fl a ≡ true
        → in_percent fl b ≡ true
        → at_least a b ≡ false
        → below a b ≡ true)
      (dc : DiskConfig)
      → validate_disk dc ≡ none
      → Ordered dc
          (parse_threshold fl (or_text "10%" dc.min_free))
          (parse_threshold fl (or_text "20%" dc.target_free))
  unfolding validate_disk
  validate_disk-Ordered comparable dc h = checked-Ordered comparable dc _ _ refl refl h
