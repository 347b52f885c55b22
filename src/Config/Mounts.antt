-- ===== src/Config/Mounts.antt =====
-- The mounts that `ParseCacheVolumes` of internal/config/config.go gives.
use mathlib.Core.Option.{some-ne-none}
use mathlib.Core.Sum.{inl-ne-inr, inr-injective}
use runscaler.Base.{
  ◌≡◌, refl, sym, subst, ◌∙◌, ◌⊎◌, inl, inr, String, str_eq, eq_refl, Bool, true, false, ◌||◌,
  Option, none, some, is_some, List, [], ◌∷◌, ◌++◌, arith, All, All-append, All-mono, Bool-cases,
  Option-cases, if◌then◌else◌, ℕ,
}
use runscaler.Base.Assoc.{lookup, put, lookup-put, put-All, lookup-All}
use runscaler.Base.Strings.{mem, cut}
use runscaler.Config.Settings.{CacheVolumeMount, CacheVolumeSpec, DockerConfig}
use runscaler.Config.CacheVolumes.{
  Syntax, CacheError, Volumes, is_container_path, short_named, short_volume, long_budgeted,
  long_volume, short_volumes, long_volumes, mount_or_zero, next_mount, collect, no_volumes,
  forget_seen, collected, parse_cache_volumes,
}

module _ (x : Syntax) where
  -- No container path is mounted twice.
  abbrev pub DistinctPaths : List CacheVolumeMount → Type 0
  DistinctPaths [] = Unit
  DistinctPaths (m ∷ ms) = All (λ n. str_eq m.path n.path ≡ false) ms × DistinctPaths ms

  abbrev pub IsMountable : CacheVolumeMount → Type 0
  IsMountable m = (is_container_path x m.path ≡ true) × (x.is_volume_name m.volume ≡ true)

  abbrev Free : List (String × String) → CacheVolumeMount → Type 0
  Free owners m = lookup m.path owners ≡ none

  next_mount-inr :
      (name : String) (m : CacheVolumeMount) (owner : Option String)
      (rest : CacheError ⊎ List CacheVolumeMount) (ms : List CacheVolumeMount)
      → next_mount x name m owner rest ≡ inr ms
      → (owner ≡ none) × (more : List CacheVolumeMount) × (rest ≡ inr more) × (m ∷ more ≡ ms)
  next_mount-inr name m (some o) rest ms h = absurd (inl-ne-inr h)
  next_mount-inr name m none (inl e) ms h = absurd (inl-ne-inr h)
  next_mount-inr name m none (inr more) ms h = (refl, more, refl, inr-injective _ _ h)

  skipped :
      {A : Type 0} (b : Bool) (a : A) (o : Option A)
      → (if b then some a else o) ≡ none
      → (o ≡ none) × (b ≡ false)
  skipped true a o h = absurd (some-ne-none a h)
  skipped false a o h = (h, refl)

  put-Free :
      (path name : String) (owners : List (String × String)) (m : CacheVolumeMount)
      → Free (put path name owners) m
      → Free owners m × (str_eq path m.path ≡ false)
  put-Free path name owners m h = skipped _ name _ (sym (lookup-put m.path path name owners) ∙ h)

  collect-DistinctPaths :
      (by_name : List (String × CacheVolumeMount)) (owners : List (String × String))
      (names : List String) (ms : List CacheVolumeMount)
      → collect x by_name owners names ≡ inr ms
      → All (Free owners) ms × DistinctPaths ms
  unfolding collect
  collect-DistinctPaths by_name owners [] ms h =
      subst (λ l. All (Free owners) l × DistinctPaths l) (inr-injective _ _ h) (tt, tt)
  collect-DistinctPaths by_name owners (name ∷ names) ms h =
      let m = mount_or_zero x (lookup name by_name) in
      let (free, more, rest, is) = next_mount-inr name m (lookup m.path owners) _ ms h in
      let (others, distinct) =
        collect-DistinctPaths by_name (put m.path name owners) names more rest in
      subst (λ l. All (Free owners) l × DistinctPaths l) is
        (
          (free, All-mono _ _ more (λ n f. (put-Free m.path name owners n f).0) others),
          (All-mono _ _ more (λ n f. (put-Free m.path name owners n f).1) others, distinct),
        )

  -- The state of the two loops: the mounts are fit, and each name in order has one.
  abbrev IsFit : Volumes x → Type 0
  IsFit s =
      All (λ e. IsMountable e.1) s.by_name × All (λ n. is_some (lookup n s.by_name) ≡ true) s.order

  abbrev OnVolumes : (Volumes x → Type 0) → CacheError ⊎ Volumes x → Type 0
  OnVolumes P (inl e) = Unit
  OnVolumes P (inr s) = P s

  put-known :
      (k n : String) (m : CacheVolumeMount) (by_name : List (String × CacheVolumeMount))
      → is_some (lookup n by_name) ≡ true
      → is_some (lookup n (put k m by_name)) ≡ true
  put-known k n m by_name h = rw (lookup-put n k m by_name) (ground arith)

  put-known_self :
      (k : String) (m : CacheVolumeMount) (by_name : List (String × CacheVolumeMount))
      → is_some (lookup k (put k m by_name)) ≡ true
  put-known_self k m by_name = rw (lookup-put k k m by_name, eq_refl k) refl

  -- A fit mount written under a name that stands last in the order, or in it already.
  appended-All :
      (k : String) (m : CacheVolumeMount) (s : Volumes x)
      → All (λ n. is_some (lookup n s.by_name) ≡ true) s.order
      → All (λ n. is_some (lookup n (put k m s.by_name)) ≡ true) (s.order ++ k ∷ [])
  appended-All k m s known =
      All-append _ s.order (k ∷ [])
        (All-mono _ _ s.order (λ n h. put-known k n m s.by_name h) known)
        (put-known_self k m s.by_name, tt)

  kept-All :
      (k : String) (m : CacheVolumeMount) (s : Volumes x) (b : Bool)
      → All (λ n. is_some (lookup n s.by_name) ≡ true) s.order
      → All
          (λ n. is_some (lookup n (put k m s.by_name)) ≡ true)
          (if b then s.order else s.order ++ k ∷ [])
  kept-All k m s true known = All-mono _ _ s.order (λ n h. put-known k n m s.by_name h) known
  kept-All k m s false known = appended-All k m s known

  short_named-IsFit :
      (s : Volumes x) (entry : String) (o : Option (String × String))
      → IsFit s
      → OnVolumes IsFit (short_named x s entry o)
  short_named-IsFit s entry none fit = tt
  short_named-IsFit s entry (some (name, path)) fit =
      elim (Bool-cases (str_eq name "" || str_eq path "")) [
        | inl e ↦ rw e tt
        | inr e ↦ rw e (elim (Bool-cases (x.is_volume_name name)) [
          | inr e1 ↦ rw e1 tt
          | inl e1 ↦ rw e1 (elim (Bool-cases (is_container_path x path)) [
            | inr e2 ↦ rw e2 tt
            | inl e2 ↦ rw e2 (elim (Bool-cases (mem name s.seen)) [
              | inl e3 ↦ rw e3 tt
              | inr e3 ↦ rw e3 (
                put-All (λ p. IsMountable p.1) name _ s.by_name (e2, e1) fit.0,
                appended-All name _ s fit.1,
              )
            ])
          ])
        ])
      ]

  long_budgeted-IsFit :
      (s : Volumes x) (spec : CacheVolumeSpec) (o : Option ℕ)
      → IsFit s
      → is_container_path x spec.path ≡ true
      → x.is_volume_name spec.name ≡ true
      → OnVolumes IsFit (long_budgeted x s spec o)
  long_budgeted-IsFit s spec none fit path_ok name_ok = tt
  long_budgeted-IsFit s spec (some budget) fit path_ok name_ok =
      elim (Bool-cases (mem spec.on_exceed ("" ∷ "warn" ∷ "wipe" ∷ []))) [
        | inr e ↦ rw e tt
        | inl e ↦ rw e (elim (Bool-cases (mem spec.name s.seen)) [
          | inl e1 ↦ rw e1 tt
          | inr e1 ↦ rw e1 (
            put-All (λ p. IsMountable p.1) spec.name _ s.by_name (path_ok, name_ok) fit.0,
            kept-All spec.name _ s (is_some (lookup spec.name s.by_name)) fit.1,
          )
        ])
      ]

  long_volume-IsFit :
      (s : Volumes x) (spec : CacheVolumeSpec) → IsFit s → OnVolumes IsFit (long_volume x s spec)
  unfolding long_volume
  long_volume-IsFit s spec fit = elim (Bool-cases (str_eq spec.name "")) [
    | inl e ↦ rw e tt
    | inr e ↦ rw e (elim (Bool-cases (x.is_volume_name spec.name)) [
      | inr e1 ↦ rw e1 tt
      | inl e1 ↦ rw e1 (elim (Bool-cases (is_container_path x spec.path)) [
        | inr e2 ↦ rw e2 tt
        | inl e2 ↦ rw e2 (long_budgeted-IsFit s spec _ fit e2 e1)
      ])
    ])
  ]

  short_volumes-IsFit :
      (o : CacheError ⊎ Volumes x) (entries : List String)
      → OnVolumes IsFit o
      → OnVolumes IsFit (short_volumes x o entries)
  unfolding short_volume
  short_volumes-IsFit o [] fit = fit
  short_volumes-IsFit (inl e) (_ ∷ _) fit = tt
  short_volumes-IsFit (inr s) (entry ∷ entries) fit =
      short_volumes-IsFit (short_volume x s entry) entries
        (short_named-IsFit s entry (cut ":" entry) fit)

  long_volumes-IsFit :
      (o : CacheError ⊎ Volumes x) (specs : List CacheVolumeSpec)
      → OnVolumes IsFit o
      → OnVolumes IsFit (long_volumes x o specs)
  long_volumes-IsFit o [] fit = fit
  long_volumes-IsFit (inl e) (_ ∷ _) fit = tt
  long_volumes-IsFit (inr s) (spec ∷ specs) fit =
      long_volumes-IsFit (long_volume x s spec) specs (long_volume-IsFit s spec fit)

  forget_seen-IsFit :
      (o : CacheError ⊎ Volumes x) → OnVolumes IsFit o → OnVolumes IsFit (forget_seen x o)
  forget_seen-IsFit (inl e) fit = tt
  forget_seen-IsFit (inr s) fit = fit

  mount-IsMountable :
      (by_name : List (String × CacheVolumeMount)) (name : String)
      → All (λ e. IsMountable e.1) by_name
      → is_some (lookup name by_name) ≡ true
      → IsMountable (mount_or_zero x (lookup name by_name))
  mount-IsMountable by_name name fit known = elim (Option-cases (lookup name by_name)) [
    | inl e ↦ absurd (ground (arith, e, known))
    | inr (m, e) ↦ rw e (lookup-All (λ p. IsMountable p.1) name m by_name e fit)
  ]

  collect-IsMountable :
      (by_name : List (String × CacheVolumeMount)) (owners : List (String × String))
      (names : List String) (ms : List CacheVolumeMount)
      → All (λ e. IsMountable e.1) by_name
      → All (λ n. is_some (lookup n by_name) ≡ true) names
      → collect x by_name owners names ≡ inr ms
      → All IsMountable ms
  unfolding collect
  collect-IsMountable by_name owners [] ms fit known h =
      subst (λ l. All IsMountable l) (inr-injective _ _ h) tt
  collect-IsMountable by_name owners (name ∷ names) ms fit known h =
      let m = mount_or_zero x (lookup name by_name) in
      let (_, more, rest, is) = next_mount-inr name m (lookup m.path owners) _ ms h in
      subst (λ l. All IsMountable l) is
        (
          mount-IsMountable by_name name fit known.0,
          collect-IsMountable by_name (put m.path name owners) names more fit known.1 rest,
        )

  collected-fit :
      (o : CacheError ⊎ Volumes x) (ms : List CacheVolumeMount)
      → OnVolumes IsFit o
      → collected x o ≡ inr ms
      → All IsMountable ms × DistinctPaths ms
  collected-fit (inl e) ms fit h = absurd (inl-ne-inr h)
  collected-fit (inr s) ms fit h = (
    collect-IsMountable s.by_name [] s.order ms fit.0 fit.1 h,
    (collect-DistinctPaths s.by_name [] s.order ms h).1,
  )

  -- Whatever mix of short and long entries a configuration has, the mounts that come of it are fit
  -- for Docker: every volume name is valid, every container path is absolute, clean and not "/",
  -- and no path is mounted twice.
  pub parse_cache_volumes-DistinctPaths :
      (dc : DockerConfig) (ms : List CacheVolumeMount)
      → parse_cache_volumes x dc ≡ inr ms
      → All IsMountable ms × DistinctPaths ms
  unfolding parse_cache_volumes
  parse_cache_volumes-DistinctPaths dc ms h =
      collected-fit _ ms
        (long_volumes-IsFit _ dc.cache (
          forget_seen-IsFit _ (short_volumes-IsFit (inr (no_volumes x)) dc.cache_volumes (tt, tt))))
        h
