-- ===== src/Instances/Bound.antt =====
-- The number of runners of internal/controller/state.go that count.
use runscaler.Base.{
  ℕ, ◌+◌, ◌≤◌, ◌<◌, ◌≡◌, ◌⊎◌, inl, inr, String, str_eq, true, some, List, [], ◌∷◌, arith,
  Bool-cases,
}
use runscaler.Base.Assoc.{lookup, modify, delete, add}
use runscaler.Instances.{Instances, Instance, is_unassigned_removal, provisioned}
use runscaler.Instances.Change.{
  Change, keeps, readies, binds, passes, fails, notes_attempt, notes_jit, collects, exits, works,
  restores, ends, scales, drains_it, claims, retries,
}
use runscaler.Instances.Ops.{count, counts_as_capacity, tally, busy_phase, refuses_done}
use runscaler.Instances.Ops.Claims.{drain_all, claimable}
use runscaler.Instances.Step.{Op, apply, run}
use runscaler.Instances.Effect.{apply-Shape, kind_of}
use runscaler.Instances.Effect.Common.{
  Kind, taking, Shape, same, modified, deleted, added, drained_all, cleared,
}

-- A call never makes a runner count that did not.
Change-counts :
    {i j : Instance} → Change i j → counts_as_capacity j ≡ true → counts_as_capacity i ≡ true
unfolding busy_phase claimable is_unassigned_removal refuses_done
Change-counts keeps v = v
Change-counts (readies id r) v = ground arith
Change-counts (binds id r c) v = v
Change-counts (passes h) v = ground arith
Change-counts (fails why h) v = ground arith
Change-counts (notes_attempt a) v = v
Change-counts (notes_jit jit) v = v
Change-counts (collects h) v = v
Change-counts (exits h) v = ground arith
Change-counts (works p job h) v = ground arith
Change-counts (restores h) v = ground arith
Change-counts (ends why job given h) v = ground arith
Change-counts (scales h) v = ground arith
Change-counts (drains_it h) v = ground arith
Change-counts (claims now h) v = v
Change-counts (retries now h k) v = v

abbrev size : List (String × Instance) → ℕ
size = tally counts_as_capacity

size-modify :
    (m : List (String × Instance)) (k : String) (f : Instance → Instance)
    → ((i : Instance) → lookup k m ≡ some i → Change i (f i))
    → size (modify k f m) ≤ size m
unfolding modify lookup
size-modify [] k f h = omega arith
size-modify ((j, i) ∷ m) k f h = elim (Bool-cases (str_eq j k)) [
  | inl e ↦ rw (e, modify) (ground (arith, Change-counts (h i (rw (e, lookup)))))
  | inr e ↦ rw (e, modify) (omega (arith, size-modify m k f (λ x at. h x (rw (e, lookup) at))))
]

size-delete : (m : List (String × Instance)) (k : String) → size (delete k m) ≤ size m
unfolding delete
size-delete [] k = omega arith
size-delete ((j, i) ∷ m) k = ground (arith, size-delete m k)

size-add :
    (m : List (String × Instance)) (k : String) (i : Instance) → size (add k i m) ≤ size m + 1
size-add [] k i = ground arith
size-add ((j, x) ∷ m) k i = omega (arith, size-add m k i)

size-drain_all : (m : List (String × Instance)) → size (drain_all m) ≤ size m
unfolding is_unassigned_removal
size-drain_all [] = omega arith
size-drain_all ((k, i) ∷ m) = ground (arith, size-drain_all m)

Shape-size :
    {kind : Kind} {m n : List (String × Instance)}
    → Shape kind m n
    → (size n ≤ size m) ⊎ ((kind ≡ taking) × (size n ≤ size m + 1))
Shape-size same = inl (omega arith)
Shape-size {m = m} (modified k f h) = inl (size-modify m k f h)
Shape-size {m = m} (deleted k i drop e) = inl (size-delete m k)
Shape-size {m = m} (added k lease new e) = inr (new, size-add m k (provisioned lease))
Shape-size {m = m} drained_all = inl (size-drain_all m)
Shape-size (cleared drop) = inl (omega arith)

-- Every reservation in the history is made below the limit.
abbrev pub Guarded : ℕ → Instances → List Op → Type 0
Guarded max s [] = Unit
Guarded max s (o ∷ os) = (kind_of o ≡ taking → count s < max) × Guarded max (apply s o) os

apply-count :
    (max : ℕ) (s : Instances) (o : Op)
    → (kind_of o ≡ taking → count s < max)
    → count s ≤ max
    → count (apply s o) ≤ max
unfolding count
apply-count max s o g h = elim (Shape-size (apply-Shape s o)) [
  | inl le ↦ omega arith
  | inr (new, le) ↦ omega (arith, g new)
]

-- If a runner is reserved only while fewer than max-runners count, then no more than that ever count,
-- whatever calls come between.
pub count-run-le :
    (max : ℕ) (s : Instances) (os : List Op)
    → Guarded max s os
    → count s ≤ max
    → count (run s os) ≤ max
unfolding run
count-run-le max s [] g h = h
count-run-le max s (o ∷ os) g h = count-run-le max (apply s o) os g.1 (apply-count max s o g.0 h)
