-- ===== src/Instances/Step.antt =====
-- The calls of internal/controller/state.go that change the state, as one step function. The
-- goroutines of a controller make them in any order, so a history is a list of them.
use runscaler.Base.{◌≡◌, true, ℕ, String, List, [], ◌∷◌, Option, none, some}
use runscaler.Instances.{Instances, Reason, has_reason, Failure, JobRef, Attempt}
use runscaler.Instances.Ops.{
  reserve, fail_provision, mark_ready, mark_provisioned, readiness_result, set_attempt, set_jit,
  claim_diagnostics, mark_exited, mark_busy, restore_busy, mark_done,
}
use runscaler.Instances.Ops.Claims.{
  mark_idle_above_target, idle_for_removal, claim_removal, retry_removal, finish_removal,
  detach_all,
}

pub data Op : Type 0 where
  reserves : String → ℕ → Op
  fails_provision : String → Op
  gets_ready : String → String → ℕ → Op
  gets_provisioned : String → String → ℕ → ℕ → Op
  readiness_ends : String → String → Failure → Op
  sets_attempt : String → Attempt → Op
  sets_jit : String → String → Op
  claims_diagnostics : String → String → Op
  exits : String → String → Op
  starts_job : String → JobRef → Op
  restores : String → String → Op
  is_done : String → (why : Reason) → has_reason why ≡ true → String → Op  -- no caller gives ""
  scales_down : List String → ℕ → Op
  drains_idle : Op
  claims_removal : List String → ℕ → Op
  retries_removal : String → String → ℕ → Op
  finishes_removal : String → String → Op
  detaches : Op

abbrev pub claimed : Instances → Option (Instances × String × String) → Instances
claimed s none = s
claimed s (some (t, _, _)) = t

unfoldable pub apply : Instances → Op → Instances
apply s (reserves name lease) = (reserve s name lease).0
apply s (fails_provision name) = fail_provision s name
apply s (gets_ready name id runner_id) = (mark_ready s name id runner_id).0
apply s (gets_provisioned name id runner_id c) = (mark_provisioned s name id runner_id c).0
apply s (readiness_ends name id why) = (readiness_result s name id why).0
apply s (sets_attempt name a) = set_attempt s name a
apply s (sets_jit name jit) = set_jit s name jit
apply s (claims_diagnostics name id) = (claim_diagnostics s name id).0
apply s (exits name id) = (mark_exited s name id).0
apply s (starts_job name job) = (mark_busy s name job).0
apply s (restores name id) = (restore_busy s name id).0
apply s (is_done name why given result) = (mark_done s name why result).0
apply s (scales_down names target) = (mark_idle_above_target s names target).0
apply s drains_idle = (idle_for_removal s).0
apply s (claims_removal names now) = claimed s (claim_removal s names now)
apply s (retries_removal name id now) = (retry_removal s name id now).0
apply s (finishes_removal name id) = (finish_removal s name id).0
apply s detaches = (detach_all s).0

unfoldable pub run : Instances → List Op → Instances
run s [] = s
run s (o ∷ os) = run (apply s o) os
