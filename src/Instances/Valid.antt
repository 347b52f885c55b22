-- ===== src/Instances/Valid.antt =====
-- What always holds of a runner in the map of internal/controller/state.go, after any calls.
use runscaler.Base.{
  ℕ, ◌≡◌, sym, subst, String, true, false, Option, none, some, List, [], ◌∷◌, arith,
}
use runscaler.Base.Assoc.{lookup, Distinct}
use runscaler.Instances.{
  Instances, Instance, find, is_removing, is_busy, has_reason, is_unassigned_removal, new_instances,
  provisioned,
}
use runscaler.Instances.Change.{
  Change, keeps, readies, binds, passes, fails, notes_attempt, notes_jit, collects, exits, works,
  restores, ends, scales, drains_it, claims, retries,
}
use runscaler.Instances.Ops.{busy_phase}
use runscaler.Instances.Ops.Claims.{claimable}
use runscaler.Instances.Step.{Op, apply, run}
use runscaler.Instances.Effect.{apply-Becomes, apply-Distinct}
use runscaler.Instances.Effect.Common.{Becomes}

pub record Valid (i : Instance) : Type 0 where
  reason_given : has_reason i.remove_reason ≡ is_removing i.phase
  claimed_removing : i.cleanup_in_flight ≡ true → is_removing i.phase ≡ true
  cleanup_unused : is_removing i.phase ≡ false → (i.cleanup_attempts ≡ 0) × (i.cleanup_retry_at ≡ 0)
  busy_worked : is_busy i.phase ≡ true → i.worked ≡ true

Change-Valid : {i j : Instance} → Change i j → Valid i → Valid j
unfolding busy_phase claimable is_unassigned_removal
Change-Valid keeps v = v
Change-Valid (readies id r) v = ground arith
Change-Valid (binds id r c) v = ground arith
Change-Valid (passes h) v = ground arith
Change-Valid (fails why h) v = ground arith
Change-Valid (notes_attempt a) v = ground arith
Change-Valid (notes_jit jit) v = ground arith
Change-Valid (collects h) v = ground arith
Change-Valid (exits h) v = ground arith
Change-Valid (works p job h) v = ground arith
Change-Valid (restores h) v = ground arith
Change-Valid (ends why job given h) v = ground arith
Change-Valid (scales h) v = ground arith
Change-Valid (drains_it h) v = ground arith
Change-Valid (claims now h) v = ground arith
Change-Valid (retries now h k) v = ground arith

provisioned-Valid : (lease : ℕ) → Valid (provisioned lease)
provisioned-Valid lease = ground arith

abbrev ValidAt : Option Instance → Type 0
ValidAt none = Unit
ValidAt (some i) = Valid i

Becomes-ValidAt : (o p : Option Instance) → Becomes o p → ValidAt o → ValidAt p
Becomes-ValidAt o none b v = tt
Becomes-ValidAt none (some j) (lease, e) v = subst Valid (sym e) (provisioned-Valid lease)
Becomes-ValidAt (some i) (some j) b v = Change-Valid b v

run-ValidAt :
    (s : Instances) (os : List Op) (name : String)
    → Distinct s.entries
    → ValidAt (find s name)
    → ValidAt (find (run s os) name)
unfolding run
run-ValidAt s [] name d v = v
run-ValidAt s (o ∷ os) name d v =
    run-ValidAt (apply s o) os name (apply-Distinct s o d)
      (Becomes-ValidAt _ _ (apply-Becomes s o name d) v)

-- Whatever calls are made from the empty state, in any order: a runner has a reason for its removal
-- exactly while it is being removed, only a runner that is being removed has a cleanup in flight or
-- a retry deadline, and a busy runner is known to have worked.
pub run-Valid :
    (os : List Op) (name : String) (i : Instance)
    → find (run new_instances os) name ≡ some i
    → Valid i
unfolding lookup
run-Valid os name i e = subst ValidAt e (run-ValidAt new_instances os name tt tt)
