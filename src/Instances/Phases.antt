-- ===== src/Instances/Phases.antt =====
-- The life of a runner in internal/controller/state.go as a diagram, and its final states.
use runscaler.Base.{
  ℕ, ◌≡◌, subst, ◌⊎◌, inl, inr, String, str_eq, false, Option, none, some, List, [], ◌∷◌, arith,
  Option-cases, All,
}
use runscaler.Base.Assoc.{Distinct, lookup-add}
use mathlib.Core.Path.{subst₂}
use runscaler.Instances.{
  Instances, Instance, Phase, provisioning, idle, busy, removing, job_completed, exited, find,
  provisioned, is_unassigned_removal,
}
use runscaler.Instances.Change.{
  Change, keeps, readies, binds, passes, fails, notes_attempt, notes_jit, collects, exits, works,
  restores, ends, scales, drains_it, claims, retries,
}
use runscaler.Instances.Ops.{busy_phase, refuses_done, reserve}
use runscaler.Instances.Ops.Claims.{claimable}
use runscaler.Instances.Step.{Op, reserves, apply, run}
use runscaler.Instances.Effect.{apply-Becomes, apply-Distinct, apply-Shape}
use runscaler.Instances.Effect.Common.{Becomes, Shape-none}

infix 40 ◌⟶◌
pub data ◌⟶◌ : Phase → Phase → Type 0 where
  stays : {p : Phase} → p ⟶ p
  ready : provisioning ⟶ idle
  assigned_early : provisioning ⟶ busy
  assigned : idle ⟶ busy
  leaves : {p : Phase} → p ⟶ removing
  restored : removing ⟶ busy

ruleset edges = (stays, ready, assigned_early, assigned, leaves, restored)

Change-⟶ : {i j : Instance} → Change i j → i.phase ⟶ j.phase
unfolding busy_phase claimable is_unassigned_removal
Change-⟶ keeps = stays
Change-⟶ (readies id r) = grind (arith, edges)
Change-⟶ (binds id r c) = stays
Change-⟶ (passes h) = grind (arith, edges)
Change-⟶ (fails why h) = leaves
Change-⟶ (notes_attempt a) = stays
Change-⟶ (notes_jit jit) = stays
Change-⟶ (collects h) = stays
Change-⟶ (exits h) = leaves
Change-⟶ (works p job h) = grind (arith, edges)
Change-⟶ (restores h) = grind (arith, edges)
Change-⟶ (ends why job given h) = leaves
Change-⟶ (scales h) = leaves
Change-⟶ (drains_it h) = leaves
Change-⟶ (claims now h) = stays
Change-⟶ (retries now h k) = stays

-- A runner that a call finds in the map and leaves there moves along an edge of the diagram: it
-- never goes back to provisioning, never from busy to idle, and from removing only to busy.
pub apply-⟶ :
    (s : Instances) (o : Op) (name : String) (i j : Instance)
    → Distinct s.entries
    → find s name ≡ some i
    → find (apply s o) name ≡ some j
    → i.phase ⟶ j.phase
apply-⟶ s o name i j d e f = Change-⟶ (subst₂ Becomes e f (apply-Becomes s o name d))

-- A runner that is removed because its job completed, or because it exited.
abbrev pub IsFinal : Instance → Type 0
IsFinal i = (i.phase ≡ removing) × ((i.remove_reason ≡ job_completed) ⊎ (i.remove_reason ≡ exited))

Change-IsFinal : {i j : Instance} → Change i j → IsFinal i → IsFinal j
unfolding busy_phase claimable is_unassigned_removal refuses_done
Change-IsFinal keeps v = v
Change-IsFinal (readies id r) v = ground arith
Change-IsFinal (binds id r c) v = v
Change-IsFinal (passes h) v = ground arith
Change-IsFinal (fails why h) v = ground arith
Change-IsFinal (notes_attempt a) v = v
Change-IsFinal (notes_jit jit) v = v
Change-IsFinal (collects h) v = v
Change-IsFinal (exits h) v = ground arith
Change-IsFinal (works p job h) v = ground arith
Change-IsFinal (restores h) v = ground arith
Change-IsFinal (ends why job given h) v = ground arith
Change-IsFinal (scales h) v = ground arith
Change-IsFinal (drains_it h) v = ground arith
Change-IsFinal (claims now h) v = v
Change-IsFinal (retries now h k) v = v

abbrev pub Gone : Option Instance → Type 0
Gone none = Unit
Gone (some i) = IsFinal i

Becomes-Gone : (i : Instance) (p : Option Instance) → Becomes (some i) p → IsFinal i → Gone p
Becomes-Gone i none b v = tt
Becomes-Gone i (some j) b v = Change-IsFinal b v

-- A call that takes no runner of that name into the map.
abbrev pub NotReserved : String → Op → Type 0
NotReserved name (reserves k lease) = str_eq k name ≡ false
NotReserved name _ = Unit

reserve-none :
    (s : Instances) (k name : String) (lease : ℕ)
    → str_eq k name ≡ false
    → find s name ≡ none
    → find (reserve s k lease).0 name ≡ none
unfolding reserve
reserve-none s k name lease other e = elim (Option-cases (find s k)) [
  | inr (i, f) ↦ rw f e
  | inl f ↦ rw f (rw (lookup-add name k (provisioned lease) s.entries f, other) e)
]

apply-none :
    (s : Instances) (o : Op) (name : String)
    → NotReserved name o
    → Distinct s.entries
    → find s name ≡ none
    → find (apply s o) name ≡ none
unfolding apply
apply-none s (reserves k lease) name other d e = reserve-none s k name lease other e
apply-none s o name other d e = Shape-none name (λ h. cc) d (apply-Shape s o) e

apply-Gone :
    (s : Instances) (o : Op) (name : String)
    → NotReserved name o
    → Distinct s.entries
    → Gone (find s name)
    → Gone (find (apply s o) name)
apply-Gone s o name other d v = elim (Option-cases (find s name)) [
  | inl e ↦ rw (apply-none s o name other d e) tt
  | inr (i, e) ↦
      Becomes-Gone i _ (subst (λ x. Becomes x (find (apply s o) name)) e (apply-Becomes s o name d))
        (rw e at v)
]

-- A runner whose job completed, or that exited, stays in removal for one of these two reasons until
-- it leaves the map, whatever calls follow, as long as no new runner of its name is reserved: no late
-- job message, no refused deregistration and no scale-down brings it back.
pub run-Gone :
    (s : Instances) (os : List Op) (name : String)
    → Distinct s.entries
    → All (NotReserved name) os
    → Gone (find s name)
    → Gone (find (run s os) name)
unfolding run
run-Gone s [] name d other v = v
run-Gone s (o ∷ os) name d other v =
    run-Gone (apply s o) os name (apply-Distinct s o d) other.1 (apply-Gone s o name other.0 d v)
