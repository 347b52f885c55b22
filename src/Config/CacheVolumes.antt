-- ===== src/Config/CacheVolumes.antt =====
-- `ParseCacheVolumes` of internal/config/config.go, with its checks of names, paths and budgets.
-- Go's regular expression for volume names and `filepath` are a parameter.
use mathlib.Core.Option
use runscaler.Base.{
  ℕ, ◌⊎◌, inl, inr, String, str_eq, Bool, ◌&&◌, ◌||◌, not, Option, none, some, is_some, List, [],
  ◌∷◌, ◌++◌, if◌then◌else◌,
}
use runscaler.Base.Assoc.{lookup, put}
use runscaler.Base.Strings.{cut, cut_suffix, mem}
use runscaler.Bytesize.{Float64, parse_threshold}
use runscaler.Config.Settings.{CacheVolumeSpec, CacheVolumeMount, DockerConfig}

pub record Syntax : Type 1 where
  pub is_volume_name : String → Bool
  pub is_abs : String → Bool
  pub clean : String → String
  pub float64 : Float64

pub data CacheError : Type 0 where
  bad_entry : String → CacheError
  bad_name : String → CacheError
  bad_path : String → CacheError
  bad_budget : String → CacheError
  bad_on_exceed : String → CacheError
  duplicate_name : String → CacheError
  duplicate_path : String → String → String → CacheError

module _ (x : Syntax) where
  unfoldable pub is_container_path : String → Bool
  is_container_path p = x.is_abs p && str_eq (x.clean p) p && not (str_eq p "/")

  unfoldable pub parse_cache_volume_budget : String → Option ℕ
  parse_cache_volume_budget budget =
      if str_eq budget ""
      then some 0
      else if is_some (cut_suffix budget "%")
      then none
      else Option.map (λ t. t.bytes) (parse_threshold x.float64 budget)

  -- The map by name with the names in the order of their first appearance, and the names that the
  -- form at hand has had.
  pub record Volumes : Type 0 where
    pub order : List String
    pub by_name : List (String × CacheVolumeMount)
    pub seen : List String

  abbrev pub short_named : Volumes → String → Option (String × String) → CacheError ⊎ Volumes
  short_named s entry none = inl (bad_entry entry)
  short_named s entry (some (name, path)) =
      if str_eq name "" || str_eq path ""
      then inl (bad_entry entry)
      else if not (x.is_volume_name name)
      then inl (bad_name name)
      else if not (is_container_path path)
      then inl (bad_path path)
      else if mem name s.seen
      then inl (duplicate_name name)
      else inr (record {
        order = s.order ++ name ∷ [];
        by_name =
            put name (record { volume = name; path = path; budget_bytes = 0; on_exceed = "" })
              s.by_name;
        seen = name ∷ s.seen;
      })

  -- One round of the loop over `CacheVolumes`.
  unfoldable pub short_volume : Volumes → String → CacheError ⊎ Volumes
  unfolding is_container_path
  short_volume s entry = short_named s entry (cut ":" entry)

  abbrev pub long_budgeted : Volumes → CacheVolumeSpec → Option ℕ → CacheError ⊎ Volumes
  long_budgeted s spec none = inl (bad_budget spec.budget)
  long_budgeted s spec (some budget) =
      if not (mem spec.on_exceed ("" ∷ "warn" ∷ "wipe" ∷ []))
      then inl (bad_on_exceed spec.on_exceed)
      else if mem spec.name s.seen
      then inl (duplicate_name spec.name)
      else inr (record {
        order = if is_some (lookup spec.name s.by_name) then s.order else s.order ++ spec.name ∷ [];
        by_name =
            put spec.name
              (record {
                volume = spec.name;
                path = spec.path;
                budget_bytes = budget;
                on_exceed = spec.on_exceed;
              })
              s.by_name;
        seen = spec.name ∷ s.seen;
      })

  -- One round of the loop over `Cache`.
  unfoldable pub long_volume : Volumes → CacheVolumeSpec → CacheError ⊎ Volumes
  unfolding is_container_path parse_cache_volume_budget
  long_volume s spec =
      if str_eq spec.name ""
      then inl (bad_entry "")
      else if not (x.is_volume_name spec.name)
      then inl (bad_name spec.name)
      else if not (is_container_path spec.path)
      then inl (bad_path spec.path)
      else long_budgeted s spec (parse_cache_volume_budget spec.budget)

  abbrev pub short_volumes : CacheError ⊎ Volumes → List String → CacheError ⊎ Volumes
  short_volumes s [] = s
  short_volumes (inl e) (_ ∷ _) = inl e
  short_volumes (inr s) (entry ∷ entries) = short_volumes (short_volume s entry) entries

  abbrev pub long_volumes : CacheError ⊎ Volumes → List CacheVolumeSpec → CacheError ⊎ Volumes
  long_volumes s [] = s
  long_volumes (inl e) (_ ∷ _) = inl e
  long_volumes (inr s) (spec ∷ specs) = long_volumes (long_volume s spec) specs

  abbrev pub mount_or_zero : Option CacheVolumeMount → CacheVolumeMount
  mount_or_zero none = record { volume = ""; path = ""; budget_bytes = 0; on_exceed = "" }
  mount_or_zero (some m) = m

  abbrev pub next_mount :
      String
      → CacheVolumeMount
      → Option String
      → CacheError ⊎ List CacheVolumeMount
      → CacheError ⊎ List CacheVolumeMount
  next_mount name m (some owner) rest = inl (duplicate_path owner name m.path)
  next_mount name m none (inl e) = inl e
  next_mount name m none (inr ms) = inr (m ∷ ms)

  -- The loop over `order`, with `pathOwner`.
  unfoldable pub collect :
      List (String × CacheVolumeMount)
      → List (String × String)
      → List String
      → CacheError ⊎ List CacheVolumeMount
  collect by_name owners [] = inr []
  collect by_name owners (name ∷ names) =
      let m = mount_or_zero (lookup name by_name) in
      next_mount name m (lookup m.path owners) (collect by_name (put m.path name owners) names)

  abbrev pub no_volumes : Volumes
  no_volumes = record { order = []; by_name = []; seen = [] }

  abbrev pub forget_seen : CacheError ⊎ Volumes → CacheError ⊎ Volumes
  forget_seen (inl e) = inl e
  forget_seen (inr s) = inr (record s { seen = [] })

  abbrev pub collected : CacheError ⊎ Volumes → CacheError ⊎ List CacheVolumeMount
  collected (inl e) = inl e
  collected (inr s) = collect s.by_name [] s.order

  unfoldable pub parse_cache_volumes : DockerConfig → CacheError ⊎ List CacheVolumeMount
  unfolding collect
  parse_cache_volumes dc =
      collected
        (long_volumes (forget_seen (short_volumes (inr no_volumes) dc.cache_volumes)) dc.cache)
