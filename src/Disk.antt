-- ===== src/Disk.antt =====
-- internal/diskguard/guard.go, with the kinds and tiers of internal/cachestore/store.go and the
-- thresholds of internal/bytesize/threshold.go (`BytesOf`). The file systems and the stores' own
-- work are a parameter, `Host`: a state of the host, what `statfs` and `Measure` report in it, and
-- what `Reclaim` makes of it. The reclaims made are listed in order. The stores are fixed after
-- `New`. `Sweep` goes over its groups in the order of a Go map: the order is an argument.
pub mod Tiers
pub mod Ladder
pub mod Groups
mod Examples
use runscaler.Base.{
  ℕ, zero, suc, ◌+◌, String, str_eq, Bool, true, false, ◌&&◌, ◌||◌, not, Option, none, some, List,
  [], ◌∷◌, ◌++◌, ltb, leb, ◌==◌, if◌then◌else◌,
}
use runscaler.Base.Assoc.{lookup, add, modify}

pub data StoreKind : Type 0 where
  garbage cache scratch : StoreKind

-- The tiers are 1 to 4.
unfoldable pub tiers_for : StoreKind → List ℕ
tiers_for garbage = 1 ∷ []
tiers_for cache = 2 ∷ 4 ∷ []
tiers_for scratch = 3 ∷ []

abbrev pub has_tier : ℕ → List ℕ → Bool
has_tier t [] = false
has_tier t (x ∷ xs) = t == x || has_tier t xs

-- What a store does once it is over its budget; anything but "wipe" is a warning.
pub data OnExceed : Type 0 where
  wipe warn : OnExceed

pub record Store : Type 0 where
  pub name : String
  pub kind : StoreKind
  pub path : String
  pub budget : ℕ
  pub on_exceed : OnExceed

pub record FsStat : Type 0 where
  pub id : String
  pub total : ℕ
  pub free : ℕ

-- `scaled p t` is `uint64(p / 100 * float64(t))`.
pub record Host : Type 1 where
  pub World : Type 0
  pub Percent : Type 0
  pub scaled : Percent → ℕ → ℕ
  pub stat : World → String → Option FsStat
  pub measure : World → Store → Option ℕ
  pub reclaim : World → Store → ℕ → World

pub record Reclaim : Type 0 where
  pub store : Store
  pub tier : ℕ

pub record Filesystem : Type 0 where
  pub path : String
  pub stat : FsStat
  pub stores : List Store

module _ (h : Host) where
  open h use {World, Percent, scaled, stat, measure, reclaim}

  pub record Threshold : Type 0 where
    pub percent : Percent
    pub bytes : ℕ

  unfoldable pub bytes_of : Threshold → ℕ → ℕ
  bytes_of t total = if t.bytes == 0 then scaled t.percent total else t.bytes

  pub record Config : Type 0 where
    pub enabled : Bool
    pub min_free : Threshold
    pub target_free : Threshold
    pub max_tier : ℕ

  abbrev pub add_store : Store → Filesystem → Filesystem
  add_store s g = record g { stores = g.stores ++ s ∷ [] }

  abbrev pub grouped :
      Store → FsStat → List (String × Filesystem) → Option Filesystem → List (String × Filesystem)
  grouped s st groups none = add st.id (record { path = s.path; stat = st; stores = s ∷ [] }) groups
  grouped s st groups (some g) = modify st.id (add_store s) groups

  abbrev pub group_store :
      Store → List (String × Filesystem) → Option FsStat → List (String × Filesystem)
  group_store s groups none = groups
  group_store s groups (some st) = grouped s st groups (lookup st.id groups)

  -- The loop of `statByFilesystem`.
  unfoldable pub stat_by_filesystem :
      World → List Store → List (String × Filesystem) → List (String × Filesystem)
  stat_by_filesystem w [] groups = groups
  stat_by_filesystem w (s ∷ ss) groups =
      stat_by_filesystem w ss (group_store s groups (stat w s.path))

  -- One tier over the stores of a group.
  unfoldable pub reclaim_tier : ℕ → List Store → World → World × List Reclaim
  unfolding tiers_for
  reclaim_tier tier [] w = (w, [])
  reclaim_tier tier (s ∷ ss) w =
      let here = has_tier tier (tiers_for s.kind) in
      let (w', calls) = reclaim_tier tier ss (if here then reclaim w s tier else w) in
      (w', if here then record { store = s; tier = tier } ∷ calls else calls)

  -- After a tier: the walk stops where `statfs` fails or the target is met.
  abbrev pub after_tier :
      World → List Reclaim → ℕ → Option FsStat → World × List Reclaim → World × List Reclaim
  after_tier w calls target none rest = (w, calls)
  after_tier w calls target (some st) (w', more) =
      if leb target st.free then (w, calls) else (w', calls ++ more)

  -- The loop over the tiers, with the number of tiers left.
  unfoldable pub ladder : ℕ → ℕ → String → List Store → ℕ → World → World × List Reclaim
  ladder zero tier path stores target w = (w, [])
  ladder (suc n) tier path stores target w =
      let (w', calls) = reclaim_tier tier stores w in
      after_tier w' calls target (stat w' path) (ladder n (tier + 1) path stores target w')

  unfoldable pub sweep_filesystem : Config → Filesystem → World → World × List Reclaim
  sweep_filesystem c g w =
      if leb (bytes_of c.min_free g.stat.total) g.stat.free
      then (w, [])
      else ladder c.max_tier 1 g.path g.stores (bytes_of c.target_free g.stat.total) w

  abbrev pub over_budget : Store → Option ℕ → Bool
  over_budget s none = false
  over_budget s (some used) = ltb s.budget used

  abbrev pub wipes : Store → Bool
  wipes s = elim s.on_exceed [ wipe ↦ true | warn ↦ false ]

  unfoldable pub wipes_now : Store → World → Bool
  unfolding tiers_for
  wipes_now s w =
      not (s.budget == 0) && over_budget s (measure w s) && wipes s && has_tier 4 (tiers_for s.kind)

  unfoldable pub enforce_budgets : List Store → World → World × List Reclaim
  unfolding wipes_now
  enforce_budgets [] w = (w, [])
  enforce_budgets (s ∷ ss) w =
      let now = wipes_now s w in
      let (w', calls) = enforce_budgets ss (if now then reclaim w s 4 else w) in
      (w', if now then record { store = s; tier = 4 } ∷ calls else calls)

  unfoldable pub sweep_groups : Config → List Filesystem → World → World × List Reclaim
  sweep_groups c [] w = (w, [])
  sweep_groups c (g ∷ gs) w =
      let (w', calls) = sweep_filesystem c g w in
      let (w'', more) = sweep_groups c gs w' in (w'', calls ++ more)

  -- `locked`: another sweep holds the lock. `order` is the order in which the groups are visited.
  unfoldable pub sweep :
      Config
      → List Store
      → Bool
      → (List (String × Filesystem) → List Filesystem)
      → World
      → World × List Reclaim
  sweep c stores locked order w =
      if not c.enabled || locked
      then (w, [])
      else let (w', wiped) = enforce_budgets stores w in
        let (w'', calls) = sweep_groups c (order (stat_by_filesystem w' stores [])) w' in
        (w'', wiped ++ calls)

  unfoldable pub any_low : Config → List (String × Filesystem) → Bool
  any_low c [] = false
  any_low c ((_, g) ∷ gs) = ltb g.stat.free (bytes_of c.min_free g.stat.total) || any_low c gs

  abbrev pub is_empty {ℓ} : {A : Type ℓ} → List A → Bool
  is_empty [] = true
  is_empty (_ ∷ _) = false

  -- The verdict, and whether an error comes with it.
  unfoldable pub needs_reclaim : Config → List Store → World → Bool × Bool
  unfolding any_low
  needs_reclaim c stores w =
      let groups = stat_by_filesystem w stores [] in
      if not c.enabled
      then (false, false)
      else if not (is_empty stores) && is_empty groups
      then (true, true)
      else (any_low c groups, false)
