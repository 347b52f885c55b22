-- ===== src/Disk/Examples.antt =====
-- A host with one file system of 100 bytes, of which its state counts the free ones.
use runscaler.Base.{
  refl, ℕ, ◌+◌, ◌*◌, ◌/◌, ◌≤◌, ◌<◌, ◌≡◌, ◌⊎◌, String, true, false, some, List, [], ◌∷◌, All, map,
}
use runscaler.Disk.{
  needs_reclaim, any_low, stat_by_filesystem, Host, Store, Filesystem, Config, cache, scratch, wipe,
  warn, bytes_of, sweep_filesystem, sweep,
}
use runscaler.Base.Assoc.{lookup, modify}
use runscaler.Disk.Groups.{needs_reclaim-Roomy, Roomy}
use runscaler.Disk.Tiers.{sweep-permitted, OnLadder, Wiped}
use runscaler.Disk.Ladder.{sweep_filesystem-Walk, Walk}

abbrev host : Host
host = record {
  World = ℕ;
  Percent = ℕ;
  scaled = λ p t. p * t / 100;
  stat = λ free path. some (record { id = "fs"; total = 100; free = free });
  measure = λ free s. some 40;
  reclaim = λ free s tier. free + 10 * tier;
}

abbrev layers : Store
layers = record { name = "layers"; kind = cache; path = "/cache"; budget = 30; on_exceed = wipe }

abbrev jobs : Store
jobs = record { name = "jobs"; kind = scratch; path = "/jobs"; budget = 0; on_exceed = warn }

abbrev settings : Config host
settings = record {
  enabled = true;
  min_free = record { percent = 10; bytes = 0 };
  target_free = record { percent = 0; bytes = 60 };
  max_tier = 3;
}

abbrev disk : Filesystem
disk = record {
  path = "/cache";
  stat = record { id = "fs"; total = 100; free = 5 };
  stores = layers ∷ jobs ∷ [];
}

abbrev visited : List (String × Filesystem) → List Filesystem
visited groups = map (λ g. g.1) groups

sweep-permitted_example :
    All
      (λ r. OnLadder host 3 r ⊎ Wiped host r)
      (sweep host settings (layers ∷ jobs ∷ []) false visited 5).1
sweep-permitted_example = sweep-permitted host settings (layers ∷ jobs ∷ []) false visited 5

sweep_filesystem-Walk_example :
    let least = bytes_of host settings.min_free 100 in
    let r = sweep_filesystem host settings disk 5 in
    ((least ≤ 5) × (r ≡ (5, [])))
    ⊎ ((5 < least)
        × ((k : ℕ) × (k ≤ 3)
            × Walk host k 3 1 "/cache"
                (layers ∷ jobs ∷ [])
                (bytes_of host settings.target_free 100)
                5
                r))
sweep_filesystem-Walk_example = sweep_filesystem-Walk host settings disk 5

abbrev both : List Store
both = layers ∷ jobs ∷ []

room : needs_reclaim host settings both 50 ≡ (false, false)
unfolding needs_reclaim any_low bytes_of stat_by_filesystem lookup modify
room = refl

needs_reclaim-Roomy_example :
    All (λ s. Roomy host settings (stat_by_filesystem host 50 both []) s (host.stat 50 s.path)) both
needs_reclaim-Roomy_example = needs_reclaim-Roomy host settings both 50 refl room
