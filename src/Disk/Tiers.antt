-- ===== src/Disk/Tiers.antt =====
-- What a sweep of internal/diskguard/guard.go may reclaim.
use runscaler.Base.{
  ℕ, zero, suc, ◌+◌, ◌≤◌, ◌≡◌, refl, ◌≢◌, ◌⊎◌, inl, inr, Bool, true, List, [], ◌∷◌, String, arith,
  Bool-cases, Option-cases, leb, not, ◌||◌, All, All-append, All-mono,
}
use runscaler.Disk.{
  Host, Store, Reclaim, Filesystem, Config, bytes_of, tiers_for, has_tier, reclaim_tier, ladder,
  sweep_filesystem, wipes, wipes_now, enforce_budgets, sweep_groups, sweep,
}

-- The store offers the tier of the call.
abbrev pub Offered : Reclaim → Type 0
unfolding tiers_for
Offered r = has_tier r.tier (tiers_for r.store.kind) ≡ true

module _ (h : Host) where
  open h use {World, stat}

  -- A tier that the store offers, between 1 and the configured maximum.
  abbrev pub OnLadder : ℕ → Reclaim → Type 0
  OnLadder top r = Offered r × (1 ≤ r.tier) × (r.tier ≤ top)

  -- The wipe of a store that has a budget and asks to be wiped over it.
  abbrev pub Wiped : Reclaim → Type 0
  Wiped r = Offered r × (r.tier ≡ 4) × (wipes h r.store ≡ true) × (r.store.budget ≢ 0)

  reclaim_tier-OnLadder :
      (top tier : ℕ) (ss : List Store) (w : World)
      → 1 ≤ tier
      → tier ≤ top
      → All (OnLadder top) (reclaim_tier h tier ss w).1
  unfolding reclaim_tier
  reclaim_tier-OnLadder top tier [] w a b = tt
  reclaim_tier-OnLadder top tier (s ∷ ss) w a b =
      elim (Bool-cases (has_tier tier (tiers_for s.kind))) [
        | inl e ↦ rw e ((e, a, b), reclaim_tier-OnLadder top tier ss _ a b)
        | inr e ↦ rw e (reclaim_tier-OnLadder top tier ss w a b)
      ]

  ladder-OnLadder :
      (n top tier : ℕ) (path : String) (ss : List Store) (target : ℕ) (w : World)
      → 1 ≤ tier
      → tier + n ≤ top + 1
      → All (OnLadder top) (ladder h n tier path ss target w).1
  unfolding ladder
  ladder-OnLadder zero top tier path ss target w a b = tt
  ladder-OnLadder (suc n) top tier path ss target w a b =
      let (w', calls) = reclaim_tier h tier ss w in
      let here = reclaim_tier-OnLadder top tier ss w a (omega arith) in
      let later = ladder-OnLadder n top (tier + 1) path ss target w' (omega arith) (omega arith) in
      elim (Option-cases (stat w' path)) [
        | inl e ↦ rw e here
        | inr (st, e) ↦ rw e (elim (Bool-cases (leb target st.free)) [
          | inl m ↦ rw m here
          | inr m ↦ rw m (All-append (OnLadder top) calls _ here later)
        ])
      ]

  sweep_filesystem-OnLadder :
      (c : Config h) (g : Filesystem) (w : World)
      → All (OnLadder c.max_tier) (sweep_filesystem h c g w).1
  unfolding sweep_filesystem
  sweep_filesystem-OnLadder c g w =
      elim (Bool-cases (leb (bytes_of h c.min_free g.stat.total) g.stat.free)) [
        | inl e ↦ rw e tt
        | inr e ↦ rw e (
            ladder-OnLadder c.max_tier c.max_tier 1 g.path g.stores
              (bytes_of h c.target_free g.stat.total) w (omega arith) (omega arith))
      ]

  sweep_groups-OnLadder :
      (c : Config h) (gs : List Filesystem) (w : World)
      → All (OnLadder c.max_tier) (sweep_groups h c gs w).1
  unfolding sweep_groups
  sweep_groups-OnLadder c [] w = tt
  sweep_groups-OnLadder c (g ∷ gs) w =
      All-append (OnLadder c.max_tier) _ _ (sweep_filesystem-OnLadder c g w)
        (sweep_groups-OnLadder c gs _)

  enforce_budgets-Wiped : (ss : List Store) (w : World) → All Wiped (enforce_budgets h ss w).1
  unfolding enforce_budgets wipes_now
  enforce_budgets-Wiped [] w = tt
  enforce_budgets-Wiped (s ∷ ss) w = elim (Bool-cases (wipes_now h s w)) [
    | inl e ↦ rw e ((ground arith, refl, ground arith, ground arith), enforce_budgets-Wiped ss _)
    | inr e ↦ rw e (enforce_budgets-Wiped ss w)
  ]

  -- Whatever the file systems report and in whatever order they are visited: each reclaim of a sweep
  -- is of a tier that its store offers, so that scratch is never wiped; and it is either of a tier
  -- between 1 and the configured maximum, or of tier 4, for a store that has a budget and asks to be
  -- wiped over it.
  pub sweep-permitted :
      (c : Config h)
      → (stores : List Store) → (locked : Bool)
      → (order : List (String × Filesystem) → List Filesystem) → (w : World)
      → All (λ r. OnLadder c.max_tier r ⊎ Wiped r) (sweep h c stores locked order w).1
  unfolding sweep
  sweep-permitted c stores locked order w = elim (Bool-cases (not c.enabled || locked)) [
    | inl e ↦ rw e tt
    | inr e ↦ rw e (
        All-append (λ r. OnLadder c.max_tier r ⊎ Wiped r) _ _
          (All-mono Wiped _ _ (λ _ k. inr k) (enforce_budgets-Wiped stores w))
          (All-mono (OnLadder c.max_tier) _ _ (λ _ k. inl k) (sweep_groups-OnLadder c _ _)))
  ]
