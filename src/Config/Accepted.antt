-- ===== src/Config/Accepted.antt =====
-- What a configuration that passes its checks has: `Validate` of internal/config/config.go and the
-- checks of cmd/runner/main.go.
use runscaler.Base.{
  ◌≡◌, refl, ◌⊎◌, inl, inr, String, str_eq, Bool, true, false, ◌&&◌, ◌||◌, not, Option, none, some,
  List, [], ◌∷◌, map, arith, All, Bool-cases, if◌then◌else◌, ℕ, ◌≤◌, map-All, All-mono,
}
use mathlib.Core.Option.{some-ne-none}
use runscaler.Base.Int.{ℤ, pos, negsuc, ltb_ℤ}
use runscaler.Capacity.{Broker, acquire, below_minimum, leased}
use runscaler.Capacity.Reach.{Run}
use runscaler.Capacity.Wiring.{
  runners_are_valid, validate_concurrent, shared_broker, configured_minimum_guaranteed,
}
use runscaler.Config.Settings.{ScaleSetConfig, Settings, GitHubAppConfig, default_provider}
use runscaler.Config.DiskGuard.{passes}
use runscaler.Config.Validate.{
  Host, ConfigError, CollectionError, validate, validate_url, first, validate_authentication,
  validate_provider, validate_tart, is_negative, validate_scale_set_collection, resolve_scale_sets,
  Url,
}
use runscaler.Config.Startup.{
  StartupError, bad_capacity, numbers, bad_set, validate_sets, check_config, global_checked,
  collection_error,
}

token_and_key :
    (a b c : Bool) → not a ≡ false → (b && c || not b && not c) ≡ false → (a ≡ true) × (b ≡ not c)
token_and_key a b c h k = (ground (arith, h), ground (arith, k))

-- Natural numbers, of which the broker reads the values, 0 <= min-runners <= max-runners and
-- max-runners at least 1.
abbrev pub RunnersFit : ScaleSetConfig → Type 0
RunnersFit ss =
    (lo : ℕ) × (hi : ℕ) × (ss.min_runners ≡ pos lo)
    × (ss.max_runners ≡ pos hi)
    × (lo ≤ hi)
    × (1 ≤ hi)

runners_fit :
    (ss : ScaleSetConfig) (lo hi : ℤ)
    → ss.min_runners ≡ lo
    → ss.max_runners ≡ hi
    → is_negative lo ≡ false
    → ltb_ℤ hi (pos 1) ≡ false
    → ltb_ℤ hi lo ≡ false
    → RunnersFit ss
runners_fit ss (pos lo) (pos hi) e f a b c =
    (lo, hi, e, f, ground (arith, a, b, c), ground (arith, a, b, c))
runners_fit ss (pos lo) (negsuc hi) e f a b c = absurd (ground (arith, a, b, c))
runners_fit ss (negsuc lo) hi e f a b c = absurd (ground (arith, a))

fit-numbers : (ss : ScaleSetConfig) → RunnersFit ss → runners_are_valid (numbers ss) ≡ true
unfolding runners_are_valid
fit-numbers ss (lo, hi, e, f, a, b) = rw (e, f) (ground (arith, a, b))

module _ (x : Host) where
  url-passes :
      (o : Option Url) (rest : Option ConfigError) → validate_url x o rest ≡ none → rest ≡ none
  url-passes none rest h = absurd (some-ne-none _ h)
  url-passes (some u) rest h = (passes _ _ rest h).1

  first-passes : (a b : Option ConfigError) → first x a b ≡ none → (a ≡ none) × (b ≡ none)
  first-passes none b h = (refl, h)
  first-passes (some e) b h = absurd (some-ne-none e h)

  -- One credential: a token, or an App that names one private key.
  abbrev pub HasCredential : ScaleSetConfig → Option GitHubAppConfig → Type 0
  HasCredential ss none = str_eq ss.token "" ≡ false
  HasCredential ss (some app) =
      (str_eq ss.token "" ≡ true)
      × (str_eq app.private_key_file "" ≡ not (str_eq app.private_key_env ""))

  credential :
      (ss : ScaleSetConfig) (o : Option GitHubAppConfig)
      → validate_authentication x ss o ≡ none
      → HasCredential ss o
  credential ss none h = (passes _ _ _ h).0
  credential ss (some app) h =
      let (token, h1) = passes _ _ _ h in
      let (_, h2) = passes _ _ _ h1 in
      let (_, h3) = passes _ _ _ h2 in
      let (key, _) = passes _ _ _ h3 in token_and_key _ _ _ token key

  -- The host of a Tart scale set runs at most two virtual machines.
  abbrev pub FitsProvider : ScaleSetConfig → Type 0
  FitsProvider ss =
      (str_eq ss.provider default_provider ≡ true)
      ⊎ ((str_eq ss.provider "tart" ≡ true) × (ltb_ℤ (pos 2) ss.max_runners ≡ false))

  provider_fits : (ss : ScaleSetConfig) → validate_provider x ss ≡ none → FitsProvider ss
  provider_fits ss h = elim (Bool-cases (str_eq ss.provider default_provider)) [
    | inl docker ↦ inl docker
    | inr no_docker ↦ elim (Bool-cases (str_eq ss.provider "tart")) [
      | inl tart ↦
          let h' : validate_tart x ss.max_runners ss.tart ≡ none = rw (no_docker, tart) at h in
          inr (tart, (passes _ _ _ h').0)
      | inr no_tart ↦ absurd (some-ne-none _ (rw (no_docker, no_tart) at h))
    ]
  ]

  -- A scale set that `Validate` accepts has a name and 0 <= min-runners <= max-runners with
  -- max-runners at least 1. It has one credential: a token, or an App with exactly one of the two
  -- sources of its private key, and then no token. Its provider is Docker, or it is Tart and
  -- max-runners is at most the two virtual machines of a host.
  pub validate_sound :
      (ss : ScaleSetConfig)
      → validate x ss ≡ none
      → (str_eq ss.scale_set_name "" ≡ false)
        × RunnersFit ss
        × HasCredential ss ss.github_app
        × FitsProvider ss
  unfolding validate
  validate_sound ss h =
      let (_, h1) = passes _ _ _ h in
      let (_, h2) = passes _ _ _ h1 in
      let (_, h3) = passes _ _ _ h2 in
      let (name, h4) = passes _ _ _ (url-passes _ _ h3) in
      let (auth, h5) = first-passes _ _ h4 in
      let (low, h6) = passes _ _ _ h5 in
      let (high, h7) = passes _ _ _ h6 in
      let (ordered, h8) = passes _ _ _ h7 in
      let (_, h9) = passes _ _ _ h8 in
      (
        name,
        runners_fit ss _ _ refl refl low high ordered,
        credential ss ss.github_app auth,
        provider_fits ss h9,
      )

  bad_set-none :
      (ss : ScaleSetConfig) (o : Option ConfigError) (rest : Option StartupError)
      → bad_set ss o rest ≡ none
      → (o ≡ none) × (rest ≡ none)
  bad_set-none ss none rest h = (refl, h)
  bad_set-none ss (some e) rest h = absurd (some-ne-none _ h)

  global-none :
      (o : Option ConfigError) (rest : Option StartupError)
      → global_checked o rest ≡ none
      → rest ≡ none
  global-none none rest h = h
  global-none (some e) rest h = absurd (some-ne-none _ h)

  validate_sets-All :
      (sets : List ScaleSetConfig) (rest : Option StartupError)
      → validate_sets x sets rest ≡ none
      → All (λ ss. validate x ss ≡ none) sets × (rest ≡ none)
  unfolding validate_sets
  validate_sets-All [] rest h = (tt, h)
  validate_sets-All (ss ∷ sets) rest h =
      let (one, more) = bad_set-none ss (validate x ss) _ h in
      let (all, last) = validate_sets-All sets rest more in ((one, all), last)

  capacity-none :
      (b : Bool) (o : Option CollectionError)
      → (if not b then some bad_capacity else collection_error o) ≡ none
      → (b ≡ true) × (o ≡ none)
  capacity-none true none h = (refl, refl)
  capacity-none true (some e) h = absurd (some-ne-none _ h)
  capacity-none false o h = absurd (some-ne-none _ h)

  -- Each scale set has passed its own check, and the numbers fit together.
  pub check_config-Valid :
      (c : Settings)
      → check_config x c ≡ none
      → All (λ ss. validate x ss ≡ none) (resolve_scale_sets x c)
        × (validate_concurrent c.concurrent (map numbers (resolve_scale_sets x c)) ≡ true)
        × (validate_scale_set_collection (resolve_scale_sets x c) ≡ none)
  unfolding check_config
  check_config-Valid c h =
      let sets = resolve_scale_sets x c in
      let (all, rest) = validate_sets-All sets _ (global-none _ _ h) in
      let (capacity, together) = capacity-none _ _ rest in (all, capacity, together)

  -- The configuration checks are enough for the broker: where `runManager` accepts a configuration
  -- and sets the broker up from its scale sets, then after whatever calls are made on the broker a
  -- request of a scale set below its min-runners is granted at once.
  pub accepted_minimum_guaranteed :
      (allocator_name : ℕ → String → String)
      (unique : (i j : ℕ) (a b : String) → allocator_name i a ≡ allocator_name j b → i ≡ j)
      (c : Settings) (b b' : Broker) (name : String)
      → check_config x c ≡ none
      → shared_broker allocator_name c.concurrent (map numbers (resolve_scale_sets x c)) ≡ some b
      → Run b b'
      → below_minimum b' name ≡ true
      → (acquire b' false (some name)).1 ≡ leased b'.next_ticket
  accepted_minimum_guaranteed allocator_name unique c b b' name ok set_up run below =
      let sets = resolve_scale_sets x c in
      let (valid, capacity, _) = check_config-Valid c ok in
      configured_minimum_guaranteed allocator_name unique c.concurrent (map numbers sets) b b' name
        capacity
        (map-All (λ s. runners_are_valid s ≡ true) numbers sets
          (All-mono _ _ sets (λ ss v. fit-numbers ss (validate_sound ss v).1) valid))
        set_up run below
