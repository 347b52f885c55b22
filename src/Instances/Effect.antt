-- ===== src/Instances/Effect.antt =====
-- What a call of internal/controller/state.go does to each runner: nothing, one `Change`, or its
-- removal from the map; and a runner that appears is newly reserved.
pub mod Common
pub mod Starting
pub mod Working
pub mod Leaving
use runscaler.Base.{
  ℕ, ◌+◌, ◌≡◌, refl, sym, subst, ◌⊎◌, inl, inr, String, str_eq, eq_iff, Bool, true, false, ◌&&◌,
  ◌||◌, not, Option, none, some, List, [], ◌∷◌, arith, if◌then◌else◌, Bool-cases, Option-cases,
  is_some, ltb, leb,
}
use runscaler.Base.Assoc.{
  lookup, modify, delete, add, Distinct, lookup-modify, lookup-delete, lookup-delete_self,
  lookup-add,
}
use runscaler.Instances.{
  Instances, Instance, Reason, Failure, JobRef, Attempt, is_provisioning, is_removing, is_failure,
  is_readiness, is_exited, is_unassigned_removal, find, put, cancel, provisioned,
}
use runscaler.Instances.Change
use runscaler.Instances.Change.{Change}
use runscaler.Instances.Ops.{
  reserve, fail_provision, fail_provision_at, mark_ready, mark_ready_at, mark_provisioned,
  mark_provisioned_at, readiness_result, readiness_result_at, set_attempt, set_jit,
  claim_diagnostics, claim_diagnostics_at, mark_exited, mark_exited_at, mark_busy, mark_busy_at,
  mark_busy_as, busy_phase, restore_busy, restore_busy_at, mark_done, mark_done_at, refuses_done,
}
use runscaler.Instances.Ops.Claims.{
  mark_idle_above_target, remove_first_idle, idle_at, scaled_down_instance, planned,
  idle_for_removal, drain_all, drained, drains, claim_removal, claim_at, first_claim, claimable,
  retry_removal, retry_removal_at, finish_removal, finish_removal_at, detach_all,
}
use runscaler.Instances.Step.{
  Op, reserves, fails_provision, gets_ready, gets_provisioned, readiness_ends, sets_attempt,
  sets_jit, claims_diagnostics, exits, starts_job, restores, is_done, scales_down, drains_idle,
  claims_removal, retries_removal, finishes_removal, detaches, apply, claimed,
}
use Common.{
  Kind, keeping, taking, dropping, Becomes, Shape, drained_all, cleared, Shape-Becomes,
  Shape-Distinct,
}
use Starting.{
  reserve-Shape, fail_provision-Shape, mark_ready-Shape, mark_provisioned-Shape,
  readiness_result-Shape,
}
use Working.{
  set_attempt-Shape, set_jit-Shape, claim_diagnostics-Shape, mark_exited-Shape, mark_busy-Shape,
  restore_busy-Shape, mark_done-Shape,
}
use Leaving.{
  remove_first_idle-Shape, mark_idle-Shape, claim_removal-Shape, retry_removal-Shape,
  finish_removal-Shape,
}

abbrev pub kind_of : Op → Kind
kind_of (reserves k lease) = taking
kind_of (fails_provision k) = dropping
kind_of (finishes_removal k id) = dropping
kind_of detaches = dropping
kind_of _ = keeping

pub apply-Shape : (s : Instances) (o : Op) → Shape (kind_of o) s.entries (apply s o).entries
unfolding apply idle_for_removal detach_all
apply-Shape s (reserves k lease) = reserve-Shape s k lease
apply-Shape s (fails_provision k) = fail_provision-Shape s k
apply-Shape s (gets_ready k id r) = mark_ready-Shape s k id r
apply-Shape s (gets_provisioned k id r c) = mark_provisioned-Shape s k id r c
apply-Shape s (readiness_ends k id why) = readiness_result-Shape s k id why
apply-Shape s (sets_attempt k a) = set_attempt-Shape s k a
apply-Shape s (sets_jit k jit) = set_jit-Shape s k jit
apply-Shape s (claims_diagnostics k id) = claim_diagnostics-Shape s k id
apply-Shape s (exits k id) = mark_exited-Shape s k id
apply-Shape s (starts_job k job) = mark_busy-Shape s k job
apply-Shape s (restores k id) = restore_busy-Shape s k id
apply-Shape s (is_done k why given result) = mark_done-Shape s k why given result
apply-Shape s (scales_down names target) = mark_idle-Shape s names target
apply-Shape s drains_idle = drained_all
apply-Shape s (claims_removal names now) = claim_removal-Shape s names now
apply-Shape s (retries_removal k id now) = retry_removal-Shape s k id now
apply-Shape s (finishes_removal k id) = finish_removal-Shape s k id
apply-Shape s detaches = cleared refl

pub apply-Becomes :
    (s : Instances) (o : Op) (name : String)
    → Distinct s.entries
    → Becomes (find s name) (find (apply s o) name)
apply-Becomes s o name d = Shape-Becomes name d (apply-Shape s o)

pub apply-Distinct : (s : Instances) (o : Op) → Distinct s.entries → Distinct (apply s o).entries
apply-Distinct s o = Shape-Distinct (apply-Shape s o)
