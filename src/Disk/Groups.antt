-- ===== src/Disk/Groups.antt =====
-- The stores by file system, and the check before a job (internal/diskguard/guard.go).
use runscaler.Base.{
  ◌≤◌, ◌≡◌, refl, ◌⊎◌, inl, inr, String, str_eq, eq_refl, eq_iff, subst, true, false, ◌&&◌, not,
  Option, none, some, List, [], ◌∷◌, ◌++◌, arith, Bool-cases, Option-cases, All, All-mono,
}
use runscaler.Base.Assoc.{lookup, lookup-modify, lookup-add}
use runscaler.Disk.{
  Host, Store, FsStat, Filesystem, Config, bytes_of, add_store, group_store, stat_by_filesystem,
  any_low, needs_reclaim, is_empty,
}

abbrev pub Listed : Store → List Store → Type 0
Listed s [] = ⊥
Listed s (x ∷ xs) = (x ≡ s) ⊎ Listed s xs

Listed-before : (s t : Store) (xs : List Store) → Listed s xs → Listed s (xs ++ t ∷ [])
Listed-before s t [] k = absurd k
Listed-before s t (x ∷ xs) (inl e) = inl e
Listed-before s t (x ∷ xs) (inr h) = inr (Listed-before s t xs h)

Listed-last : (t : Store) (xs : List Store) → Listed t (xs ++ t ∷ [])
Listed-last t [] = inl refl
Listed-last t (x ∷ xs) = inr (Listed-last t xs)

abbrev alone : Store → FsStat → Filesystem
alone s st = record { path = s.path; stat = st; stores = s ∷ [] }

module _ (h : Host) where
  open h use {World, stat}

  -- A store whose file system answers stands in the group of that file system.
  abbrev pub Placed : List (String × Filesystem) → Store → Option FsStat → Type 0
  Placed groups s none = Unit
  Placed groups s (some st) = (g : Filesystem) × (lookup st.id groups ≡ some g) × Listed s g.stores

  group_store-Placed :
      (groups : List (String × Filesystem)) (s : Store) (o : Option FsStat)
      → Placed (group_store h s groups o) s o
  group_store-Placed groups s none = tt
  group_store-Placed groups s (some st) = elim (Option-cases (lookup st.id groups)) [
    | inl e ↦ rw e (
      alone s st,
      rw (lookup-add st.id st.id (alone s st) groups e, eq_refl st.id) refl,
      inl refl,
    )
    | inr (g, e) ↦ rw e (
      add_store h s g,
      rw (lookup-modify st.id st.id (add_store h s) groups, eq_refl st.id, e) refl,
      Listed-last s g.stores,
    )
  ]

  group_store-keeps :
      (groups : List (String × Filesystem)) (s t : Store) (o p : Option FsStat)
      → Placed groups s o
      → Placed (group_store h t groups p) s o
  group_store-keeps groups s t none p k = tt
  group_store-keeps groups s t (some st) none k = k
  group_store-keeps groups s t (some st) (some u) (g, e, l) =
      elim (Option-cases (lookup u.id groups)) [
        | inl fresh ↦ rw fresh (elim (Bool-cases (str_eq u.id st.id)) [
          | inl same ↦ absurd (
              ground
                (arith, e, subst (λ k. lookup k groups ≡ none) ((eq_iff u.id st.id).0 same) fresh))
          | inr other ↦ (g, rw (lookup-add st.id u.id (alone t u) groups fresh, other) e, l)
        ])
        | inr (g', known) ↦ rw known (elim (Bool-cases (str_eq u.id st.id)) [
          | inl same ↦ (
            add_store h t g,
            rw (lookup-modify st.id u.id (add_store h t) groups, same, e) refl,
            Listed-before s t g.stores l,
          )
          | inr other ↦ (g, rw (lookup-modify st.id u.id (add_store h t) groups, other) e, l)
        ])
      ]

  stat_by_filesystem-keeps :
      (w : World) (ss : List Store) (groups : List (String × Filesystem)) (s : Store)
      (o : Option FsStat)
      → Placed groups s o
      → Placed (stat_by_filesystem h w ss groups) s o
  unfolding stat_by_filesystem
  stat_by_filesystem-keeps w [] groups s o k = k
  stat_by_filesystem-keeps w (t ∷ ss) groups s o k =
      stat_by_filesystem-keeps w ss _ s o (group_store-keeps groups s t o (stat w t.path) k)

  -- No store is missed: each one whose file system answers is in the group of that file system.
  stat_by_filesystem-Placed :
      (w : World) (ss : List Store) (groups : List (String × Filesystem))
      → All (λ s. Placed (stat_by_filesystem h w ss groups) s (stat w s.path)) ss
  unfolding stat_by_filesystem
  stat_by_filesystem-Placed w [] groups = tt
  stat_by_filesystem-Placed w (s ∷ ss) groups = (
    stat_by_filesystem-keeps w ss _ s (stat w s.path) (group_store-Placed groups s (stat w s.path)),
    stat_by_filesystem-Placed w ss _,
  )

  -- A store whose file system answers stands in a group with the minimum free.
  abbrev pub Roomy : Config h → List (String × Filesystem) → Store → Option FsStat → Type 0
  Roomy c groups s none = Unit
  Roomy c groups s (some st) =
      (g : Filesystem) × (lookup st.id groups ≡ some g)
      × Listed s g.stores
      × (bytes_of h c.min_free g.stat.total ≤ g.stat.free)

  abbrev RoomIn : Config h → Option Filesystem → Type 0
  RoomIn c none = Unit
  RoomIn c (some g) = bytes_of h c.min_free g.stat.total ≤ g.stat.free

  any_low-lookup :
      (c : Config h) (groups : List (String × Filesystem)) (k : String) (g : Filesystem)
      → any_low h c groups ≡ false
      → lookup k groups ≡ some g
      → bytes_of h c.min_free g.stat.total ≤ g.stat.free
  unfolding any_low lookup
  any_low-lookup c [] k g low e = ground arith
  any_low-lookup c ((j, x) ∷ groups) k g low e = elim (Bool-cases (str_eq j k)) [
    | inl same ↦
        let there : some x ≡ some g = rw same at e in
        let room : bytes_of h c.min_free x.stat.total ≤ x.stat.free = ground arith in
        subst (λ (o : Option Filesystem). RoomIn c o) there room
    | inr other ↦ any_low-lookup c groups k g (ground arith) (rw other at e)
  ]

  Placed-Roomy :
      (c : Config h) (groups : List (String × Filesystem)) (s : Store) (o : Option FsStat)
      → any_low h c groups ≡ false
      → Placed groups s o
      → Roomy c groups s o
  Placed-Roomy c groups s none low k = tt
  Placed-Roomy c groups s (some st) low (g, e, l) = (g, e, l, any_low-lookup c groups st.id g low e)

  -- Where the guard is enabled and the check before a job finds nothing low and reports no error,
  -- every store whose file system answers stands in a group that has its minimum free.
  pub needs_reclaim-Roomy :
      (c : Config h) (ss : List Store) (w : World)
      → c.enabled ≡ true
      → needs_reclaim h c ss w ≡ (false, false)
      → All (λ s. Roomy c (stat_by_filesystem h w ss []) s (stat w s.path)) ss
  unfolding needs_reclaim
  needs_reclaim-Roomy c ss w on verdict =
      let groups = stat_by_filesystem h w ss [] in
      let low : any_low h c groups ≡ false = elim (Bool-cases (any_low h c groups)) [
        | inr e ↦ e
        | inl e ↦ elim (Bool-cases (not (is_empty h ss) && is_empty h groups)) [
          | inl f ↦ absurd (ground (arith, verdict))
          | inr f ↦ absurd (ground (arith, verdict))
        ]
      ] in
      All-mono _ _ ss (λ s. Placed-Roomy c groups s (stat w s.path) low)
        (stat_by_filesystem-Placed w ss [])
