-- ===== src/Config/Collection.antt =====
-- The scale sets beside each other: `validateScaleSetCollection` of cmd/runner/main.go.
use runscaler.Base.{
  ◌≤◌, ◌≡◌, refl, String, str_eq, eq_iff, false, Option, none, some, List, [], ◌∷◌, arith, All,
  All-mono, ltb, ℕ,
}
use mathlib.Core.Option.{some-ne-none}
use runscaler.Base.Int.{pos_part}
use runscaler.Base.Strings.{mem}
use runscaler.Config.Settings.{ScaleSetConfig, Settings}
use runscaler.Config.Validate.{
  Host, CollectionError, tart_total, first_duplicate, totals_checked, validate_scale_set_collection,
  resolve_scale_sets,
}
use runscaler.Config.Startup.{check_config}
use runscaler.Config.DiskGuard.{passes}
use runscaler.Config.Accepted.{check_config-Valid}

-- No two scale sets have one name.
abbrev pub DistinctNames : List ScaleSetConfig → Type 0
DistinctNames [] = Unit
DistinctNames (ss ∷ rest) =
    All (λ other. str_eq ss.scale_set_name other.scale_set_name ≡ false) rest × DistinctNames rest

not_mem :
    (s t : String) (names : List String)
    → mem s (t ∷ names) ≡ false
    → (mem s names ≡ false) × (str_eq t s ≡ false)
not_mem s t names h = (ground (arith, h), ground (arith, h, eq_iff s t, eq_iff t s))

first_duplicate-DistinctNames :
    (names : List String) (sets : List ScaleSetConfig)
    → first_duplicate names sets ≡ none
    → All (λ ss. mem ss.scale_set_name names ≡ false) sets × DistinctNames sets
first_duplicate-DistinctNames names [] h = (tt, tt)
first_duplicate-DistinctNames names (ss ∷ rest) h =
    let (fresh, h') = passes _ _ _ h in
    let (others, distinct) = first_duplicate-DistinctNames (ss.scale_set_name ∷ names) rest h' in
    (
      (
        fresh,
        All-mono _ _ rest (λ o k. (not_mem o.scale_set_name ss.scale_set_name names k).0) others,
      ),
      (
        All-mono _ _ rest (λ o k. (not_mem o.scale_set_name ss.scale_set_name names k).1) others,
        distinct,
      ),
    )

within : (n : ℕ) → ltb 2 n ≡ false → n ≤ 2
within n h = ground arith

totals-le :
    (sets : List ScaleSetConfig) (o : Option CollectionError)
    → totals_checked sets o ≡ none
    → (o ≡ none)
      × (tart_total (λ ss. pos_part ss.min_runners) sets ≤ 2)
      × (tart_total (λ ss. pos_part ss.tart.pool_size) sets ≤ 2)
totals-le sets (some e) h = absurd (some-ne-none e h)
totals-le sets none h =
    let (min_ok, h') = passes _ _ _ h in
    let (pool_ok, _) = passes _ _ _ h' in (refl, within _ min_ok, within _ pool_ok)

-- In a configuration that `runManager` accepts no two scale sets have one name, and the Tart scale
-- sets together promise and keep warm at most the two virtual machines that a host may run.
pub check_config-DistinctNames :
    (x : Host) (c : Settings)
    → check_config x c ≡ none
    → DistinctNames (resolve_scale_sets x c)
      × (tart_total (λ ss. pos_part ss.min_runners) (resolve_scale_sets x c) ≤ 2)
      × (tart_total (λ ss. pos_part ss.tart.pool_size) (resolve_scale_sets x c) ≤ 2)
unfolding validate_scale_set_collection
check_config-DistinctNames x c ok =
    let sets = resolve_scale_sets x c in
    let (_, _, together) = check_config-Valid x c ok in
    let (distinct, min_ok, pool_ok) = totals-le sets (first_duplicate [] sets) together in
    ((first_duplicate-DistinctNames [] sets distinct).1, min_ok, pool_ok)
