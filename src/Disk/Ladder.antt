-- ===== src/Disk/Ladder.antt =====
-- What a sweep of one file system of internal/diskguard/guard.go reclaims, and where it stops.
use mathlib.Core.List.{append-nil}
use runscaler.Base.{
  ℕ, zero, suc, ◌+◌, ◌≤◌, ◌<◌, ◌≡◌, refl, sym, ap, subst, leb→le, ◌∙◌, ◌⊎◌, inl, inr, String, none,
  some, List, [], ◌∷◌, ◌++◌, arith, Bool-cases, Option-cases, leb, if◌then◌else◌,
}
use runscaler.Disk.{
  Host, FsStat, Store, Reclaim, Filesystem, Config, tiers_for, has_tier, bytes_of, reclaim_tier,
  ladder, sweep_filesystem,
}

-- The reclaims of one tier: of each store that offers it, in the order of the stores.
unfoldable pub wanted_at : ℕ → List Store → List Reclaim
unfolding tiers_for
wanted_at tier [] = []
wanted_at tier (s ∷ ss) =
    let rest = wanted_at tier ss in
    if has_tier tier (tiers_for s.kind) then record { store = s; tier = tier } ∷ rest else rest

-- Those of `k` tiers from `tier` on.
unfoldable pub wanted : ℕ → ℕ → List Store → List Reclaim
unfolding wanted_at
wanted zero tier ss = []
wanted (suc k) tier ss = wanted_at tier ss ++ wanted k (tier + 1) ss

module _ (h : Host) where
  open h use {World, stat, reclaim}

  -- What a list of reclaims makes of the host.
  unfoldable pub replay : World → List Reclaim → World
  replay w [] = w
  replay w (r ∷ rs) = replay (reclaim w r.store r.tier) rs

  -- The file system could be measured, and is below the target.
  abbrev pub Short : String → ℕ → World → Type 0
  Short path target w = (st : FsStat) × (stat w path ≡ some st) × (st.free < target)

  -- It could not be measured, or meets the target.
  abbrev pub Stops : String → ℕ → World → Type 0
  Stops path target w =
      (stat w path ≡ none) ⊎ ((st : FsStat) × (stat w path ≡ some st) × (target ≤ st.free))

  -- After each tier but the last of `k` tiers the file system is short.
  abbrev pub ShortBefore : ℕ → ℕ → String → List Store → ℕ → World → Type 0
  ShortBefore zero tier path ss target w = Unit
  ShortBefore (suc zero) tier path ss target w = Unit
  ShortBefore (suc (suc k)) tier path ss target w =
      let w' = replay w (wanted_at tier ss) in
      Short path target w' × ShortBefore (suc k) (tier + 1) path ss target w'

  -- A walk over the first `k` of `n` tiers from `tier` on.
  abbrev pub Walk : ℕ → ℕ → ℕ → String → List Store → ℕ → World → World × List Reclaim → Type 0
  Walk k n tier path ss target w (w', calls) =
      (calls ≡ wanted k tier ss)
      × (w' ≡ replay w calls)
      × ShortBefore k tier path ss target w
      × ((k ≡ n) ⊎ ((1 ≤ k) × Stops path target w'))

  replay-append : (w : World) (rs qs : List Reclaim) → replay w (rs ++ qs) ≡ replay (replay w rs) qs
  unfolding replay
  replay-append w [] qs = refl
  replay-append w (r ∷ rs) qs = replay-append (reclaim w r.store r.tier) rs qs

  reclaim_tier-wanted :
      (tier : ℕ) (ss : List Store) (w : World)
      → ((reclaim_tier h tier ss w).1 ≡ wanted_at tier ss)
        × ((reclaim_tier h tier ss w).0 ≡ replay w (wanted_at tier ss))
  unfolding reclaim_tier wanted_at replay
  reclaim_tier-wanted tier [] w = (refl, refl)
  reclaim_tier-wanted tier (s ∷ ss) w = elim (Bool-cases (has_tier tier (tiers_for s.kind))) [
    | inl e ↦
        let (calls, world) = reclaim_tier-wanted tier ss (reclaim w s tier) in
        rw e (ap {B = List Reclaim} (λ l. record { store = s; tier = tier } ∷ l) calls, world)
    | inr e ↦ rw e (reclaim_tier-wanted tier ss w)
  ]

  -- A tier after which the file system is short comes before the walk over the next ones.
  before-ShortBefore :
      (k tier : ℕ) (path : String) (ss : List Store) (target : ℕ) (w w' : World)
      → w' ≡ replay w (wanted_at tier ss)
      → Short path target w'
      → ShortBefore k (tier + 1) path ss target w'
      → ShortBefore (suc k) tier path ss target w
  before-ShortBefore zero tier path ss target w w' e here later = tt
  before-ShortBefore (suc k) tier path ss target w w' e here later = (
    subst (Short path target) e here,
    subst (ShortBefore (suc k) (tier + 1) path ss target) e later,
  )

  over : (k n : ℕ) {P : Type 0} → (k ≡ n) ⊎ ((1 ≤ k) × P) → (suc k ≡ suc n) ⊎ ((1 ≤ suc k) × P)
  over k n (inl e) = inl (ap suc e)
  over k n (inr (_, p)) = inr (omega arith, p)

  stopped-Walk :
      (n tier : ℕ) (path : String) (ss : List Store) (target : ℕ) (w : World)
      → Stops path target (reclaim_tier h tier ss w).0
      → (k : ℕ) × (k ≤ suc n) × Walk k (suc n) tier path ss target w (reclaim_tier h tier ss w)
  unfolding wanted
  stopped-Walk n tier path ss target w stops =
      let (calls, world) = reclaim_tier-wanted tier ss w in
      (
        1,
        omega arith,
        (
          calls ∙ sym (append-nil (wanted_at tier ss)),
          world ∙ ap (replay w) (sym calls),
          tt,
          inr (omega arith, stops),
        ),
      )

  further-Walk :
      (n tier : ℕ) (path : String) (ss : List Store) (target : ℕ) (w : World)
      (rest : World × List Reclaim)
      → Short path target (reclaim_tier h tier ss w).0
      → (k : ℕ) × (k ≤ n) × Walk k n (tier + 1) path ss target (reclaim_tier h tier ss w).0 rest
      → (k : ℕ) × (k ≤ suc n)
        × Walk k (suc n) tier path ss target w (rest.0, (reclaim_tier h tier ss w).1 ++ rest.1)
  unfolding wanted
  further-Walk n tier path ss target w (w'', more) short (k, le, (calls', world', before, ends)) =
      let (calls, world) = reclaim_tier-wanted tier ss w in
      let one = (reclaim_tier h tier ss w).1 in
      let whole =
        replay-append w one more ∙ ap (λ v. replay v more) (ap (replay w) calls ∙ sym world) in
      (
        suc k,
        omega (arith, le),
        (
          ap (λ l. l ++ more) calls ∙ ap (λ l. wanted_at tier ss ++ l) calls',
          world' ∙ sym whole,
          before-ShortBefore k tier path ss target w _ world short before,
          over k n ends,
        ),
      )

  ladder-Walk :
      (n tier : ℕ) (path : String) (ss : List Store) (target : ℕ) (w : World)
      → (k : ℕ) × (k ≤ n) × Walk k n tier path ss target w (ladder h n tier path ss target w)
  unfolding ladder wanted replay
  ladder-Walk zero tier path ss target w = (0, omega arith, (refl, refl, tt, inl refl))
  ladder-Walk (suc n) tier path ss target w =
      let w' = (reclaim_tier h tier ss w).0 in
      elim (Option-cases (stat w' path)) [
        | inl e ↦ rw e (stopped-Walk n tier path ss target w (inl e))
        | inr (st, e) ↦ rw e (elim (Bool-cases (leb target st.free)) [
          | inl m ↦
              rw m (stopped-Walk n tier path ss target w (inr (st, e, leb→le target st.free m)))
          | inr m ↦ rw m (
              further-Walk n tier path ss target w (ladder h n (tier + 1) path ss target w')
                (st, e, ground (arith, m)) (ladder-Walk n (tier + 1) path ss target w'))
        ])
      ]

  -- A file system with its minimum free is left alone. Otherwise a sweep walks over a number of the
  -- tiers from 1 on, at most the configured maximum: it makes exactly the reclaims that the stores
  -- offer at these tiers, tier by tier and in the order of the stores. After each tier but the last
  -- the file system, measured then, was below the target; and unless all tiers were walked over, it
  -- met the target after the last one, or could not be measured.
  pub sweep_filesystem-Walk :
      (c : Config h) (g : Filesystem) (w : World)
      → let least = bytes_of h c.min_free g.stat.total in
        let r = sweep_filesystem h c g w in
        ((least ≤ g.stat.free) × (r ≡ (w, [])))
        ⊎ ((g.stat.free < least)
            × ((k : ℕ) × (k ≤ c.max_tier)
                × Walk k c.max_tier 1 g.path g.stores (bytes_of h c.target_free g.stat.total) w r))
  unfolding sweep_filesystem
  sweep_filesystem-Walk c g w =
      let least = bytes_of h c.min_free g.stat.total in
      let target = bytes_of h c.target_free g.stat.total in
      elim (Bool-cases (leb least g.stat.free)) [
        | inl e ↦ inl (ground arith, rw e refl)
        | inr e ↦ inr (ground arith, rw e (ladder-Walk c.max_tier 1 g.path g.stores target w))
      ]
