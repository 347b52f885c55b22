-- ===== src/Instances/Change.antt =====
-- What one call of internal/controller/state.go can do to one runner that it leaves in the map.
use runscaler.Base.{ℕ, ◌+◌, ◌≡◌, String, true, false, ◌&&◌, ◌||◌, not, Option, some, if◌then◌else◌}
use runscaler.Instances.{
  Instance, Phase, idle, busy, removing, Reason, no_reason, drain, exited, readiness, Failure,
  exited_before_ready, exited_unexpectedly, is_provisioning, is_idle, is_removing, is_completed,
  has_reason, is_readiness, JobRef, Attempt, is_unassigned_removal,
}
use runscaler.Instances.Ops.{busy_phase, refuses_done}
use runscaler.Instances.Ops.Claims.{drains, scaled_down_instance, claimable, cleanup_delay}

pub data Change (i : Instance) : Instance → Type 0 where
  keeps : Change i i
  readies :
      (id : String) (runner_id : ℕ)
      → Change i (record i {
        id = id;
        runner_id = runner_id;
        phase = if is_provisioning i.phase then idle else i.phase;
      })
  binds :
      (id : String) (runner_id : ℕ) (c : Option ℕ)
      → Change i (record i { id = id; runner_id = runner_id; readiness_cancel = c })
  passes : is_provisioning i.phase ≡ true → Change i (record i { phase = idle })
  fails :
      (why : Failure)
      → is_provisioning i.phase ≡ true
      → Change i (record i { phase = removing; remove_reason = readiness; diagnostic_reason = why })
  notes_attempt : (a : Attempt) → Change i (record i { attempt = a })
  notes_jit : (jit : String) → Change i (record i { jit = jit })
  collects : i.diagnostics_collected ≡ false → Change i (record i { diagnostics_collected = true })
  exits :
      (is_removing i.phase && not (is_readiness i.remove_reason)) ≡ false
      → Change i (record i {
        phase = removing;
        remove_reason = exited;
        diagnostic_reason = if i.worked then exited_unexpectedly else exited_before_ready;
      })
  works :
      (p : Phase) (job : JobRef)
      → busy_phase i ≡ some p
      → Change i (record i { phase = p; job = job; worked = true })
  restores :
      is_unassigned_removal i ≡ true
      → Change i (record i {
        phase = busy;
        worked = true;
        remove_reason = no_reason;
        cleanup_in_flight = false;
        cleanup_attempts = 0;
        cleanup_retry_at = 0;
      })
  ends :
      (why : Reason) (job : JobRef)
      → has_reason why ≡ true
      → refuses_done why i ≡ false
      → Change i (record i {
        phase = removing;
        remove_reason = why;
        job = job;
        worked = is_completed why || i.worked;
      })
  scales : is_idle i.phase ≡ true → Change i (scaled_down_instance i)
  drains_it : drains i ≡ true → Change i (record i { phase = removing; remove_reason = drain })
  claims : (now : ℕ) → claimable now i ≡ true → Change i (record i { cleanup_in_flight = true })
  retries :
      (now : ℕ)
      → is_removing i.phase ≡ true
      → i.cleanup_in_flight ≡ true
      → Change i (record i {
        cleanup_in_flight = false;
        cleanup_attempts = i.cleanup_attempts + 1;
        cleanup_retry_at = now + cleanup_delay (i.cleanup_attempts + 1);
      })
