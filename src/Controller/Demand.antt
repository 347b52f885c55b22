-- ===== src/Controller/Demand.antt =====
-- The listener's callbacks and the exits of runners: `HandleDesiredRunnerCount`,
-- `HandleJobStarted`, `HandleJobCompleted` and `handleExit` of internal/controller/controller.go,
-- `watchInstance`, and `waitReady` of readiness.go.
use runscaler.Base.{
  ℕ, ◌+◌, String, Bool, true, false, ◌&&◌, ◌||◌, not, Option, none, some, List, [], ◌∷◌, ◌==◌,
  if◌then◌else◌,
}
use runscaler.Backoff.{Float}
use runscaler.Instances.{
  Instances, Failure, no_failure, readiness_timeout, readiness_unavailable, exited_before_ready,
  job_completed, JobRef, Attempt,
}
use runscaler.Instances.Ops.{
  contains, count, mark_busy, attempt_of, mark_done, mark_exited, readiness_result,
}
use runscaler.Controller.{
  Controller, Readiness, verified, unverified, signal_reconcile, target_runner_count,
}
use runscaler.Controller.Retry.{record_start_failure, record_start_success, record_work_success}

-- The count reported, and whether an error is returned.
unfoldable pub handle_desired : Controller → Bool → ℕ → Controller × ℕ × Bool
handle_desired c ended n =
    if c.draining
    then (c, count c.instances, false)
    else if ended
    then (c, count c.instances, true)
    else let c' = signal_reconcile (record c {
      desired_runners = n;
      desired_revision = c.desired_revision + 1;
      pending_completions = 0;
      demand_stale = false;
    }) in
      (c', target_runner_count c', false)

abbrev pub with_instances : Controller → Instances → Controller
with_instances c s = record c { instances = s }

unfoldable pub handle_job_started : Controller → String → JobRef → ℕ → Controller
handle_job_started c name job now =
    let (s, known) = mark_busy c.instances name job in
    if known
    then record_work_success (with_instances c s) (attempt_of s name) now
    else with_instances c s

abbrev pub completed_at : Controller → String → ℕ → Instances × Option (String × Bool) → Controller
completed_at c name now (s, none) = with_instances c s
completed_at c name now (s, some (_, ready)) =
    let c' = record_work_success (with_instances c s) (attempt_of s name) now in
    let c'' = record c' { pending_completions = c'.pending_completions + 1 } in
    if ready then signal_reconcile c'' else c''

unfoldable pub handle_job_completed : Controller → String → String → ℕ → Controller
handle_job_completed c name result now =
    completed_at c name now (mark_done c.instances name job_completed result)

-- What a readiness check reports.
pub data ReadyResult : Type 0 where
  ready disabled exited timed_out unavailable : ReadyResult

abbrev pub count_exit : Controller → Controller
count_exit c =
    let r = c.runtime in
    record c { runtime = record r { unexpected_exits = r.unexpected_exits + 1 } }

abbrev pub set_readiness : Controller → Readiness → Controller
set_readiness c readiness =
    let r = c.runtime in record c { runtime = record r { readiness = readiness } }

module _ (fl : Float) where
  open fl use {F}

  -- The end of `handleExit`, under `desiredMu` and after it.
  abbrev pub exit_recorded : Controller → ℕ → Attempt × Bool × Bool → F → ℕ → Controller
  exit_recorded c revision (attempt, unassigned, worked) sample now =
      let c' : Controller =
        if c.desired_revision == revision then record c { demand_stale = true } else c in
      signal_reconcile (
        if unassigned
        then record_start_failure fl c' c'.work_ended exited_before_ready attempt sample now
        else if worked
        then count_exit c'
        else c')

  abbrev pub exit_marked :
      Controller
      → ℕ
      → (Controller → Controller)
      → F
      → ℕ
      → Instances × Option (Attempt × Bool × Bool)
      → Controller
  exit_marked c revision meanwhile sample now (s, none) = with_instances c s
  exit_marked c revision meanwhile sample now (s, some e) =
      exit_recorded (meanwhile (with_instances c s)) revision e sample now

  -- `before` and `meanwhile`: what other goroutines do between the three locks that it takes.
  unfoldable pub handle_exit :
      Controller
      → String
      → String
      → (Controller → Controller)
      → (Controller → Controller)
      → F
      → ℕ
      → Controller
  handle_exit c name id before meanwhile sample now =
      let c' = before c in
      exit_marked c' c.desired_revision meanwhile sample now (mark_exited c'.instances name id)

  abbrev pub readiness_failure : ReadyResult → Failure
  readiness_failure timed_out = readiness_timeout
  readiness_failure unavailable = readiness_unavailable
  readiness_failure exited = exited_before_ready
  readiness_failure _ = no_failure

  abbrev pub ready_recorded : Controller → ReadyResult → Attempt → F → ℕ → Controller
  ready_recorded c ready attempt sample now =
      signal_reconcile (record_start_success (set_readiness c verified) attempt now)
  ready_recorded c disabled attempt sample now =
      signal_reconcile (record_start_success (set_readiness c unverified) attempt now)
  ready_recorded c result attempt sample now =
      signal_reconcile
        (record_start_failure fl c c.work_ended (readiness_failure result) attempt sample now)

  abbrev pub ready_checked :
      Controller → String → String → ReadyResult → Attempt → F → ℕ → Controller
  ready_checked c name id result attempt sample now =
      let (s, known) = readiness_result c.instances name id (readiness_failure result) in
      if known
      then ready_recorded (with_instances c s) result attempt sample now
      else with_instances c s

  -- `waitReady`, once the check has answered. An exit is handled as one.
  unfoldable pub wait_ready :
      Controller
      → Bool
      → String
      → String
      → ReadyResult
      → Attempt
      → (Controller → Controller)
      → (Controller → Controller)
      → F
      → ℕ
      → Controller
  unfolding handle_exit
  wait_ready c ended name id exited attempt before meanwhile sample now =
      if ended then c else handle_exit c name id before meanwhile sample now
  wait_ready c ended name id result attempt before meanwhile sample now =
      if ended then c else ready_checked c name id result attempt sample now

-- What `watchInstance` sees at one return of `WaitInstance`: the controller, whether the context has
-- ended, whether an error was returned, and whether the context ends in the pause after it.
pub record Wakeup : Type 0 where
  pub seen : Controller
  pub ended : Bool
  pub failed : Bool
  pub stopped : Bool

-- Whether an exit is handled in the end, for as many returns as are given.
unfoldable pub watch_instance : String → String → List Wakeup → Bool
unfolding contains
watch_instance name id [] = false
watch_instance name id (w ∷ ws) =
    let rest = watch_instance name id ws in
    if w.ended || not (contains w.seen.instances name id)
    then false
    else if w.failed
    then not w.stopped && rest
    else true
