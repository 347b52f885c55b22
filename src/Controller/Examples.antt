-- ===== src/Controller/Examples.antt =====
-- A controller of at most two runners, with "r1" in its states.
use runscaler.Base.{inl, ◌≡◌, refl, ◌≢◌, String, Bool, true, false, Option, none, some, [], ◌∷◌}
use runscaler.Base.Assoc.{lookup, Distinct}
use runscaler.Base.Int.{pos}
use runscaler.Backoff.{default_retry}
use runscaler.Backoff.Examples.{percent}
use runscaler.Capacity.{Broker, find_lease}
use runscaler.Capacity.Leases.{Spent, Issued}
use runscaler.Instances.{
  Instances, Instance, new_instances, provisioned, find, idle, busy, removing, scaled_down,
  job_completed, exited_before_ready, readiness_timeout, no_attempt, Attempt, is_unassigned_removal,
}
use runscaler.Instances.Ops.{has_work, deregistration, mark_done, refuses_done, mark_exited, count}
use runscaler.Instances.Ops.Claims.{claim_removal}
use runscaler.Controller.{new_runtime, Controller, scale_target}
use runscaler.Controller.Retry.{record_start_attempt, retry_allowed}
use runscaler.Controller.Demand.{handle_job_completed}
use runscaler.Controller.Cleanup.{Answers, removed, remove_claimed, deregister, collect_failure}
use runscaler.Controller.Reconcile.{reconcile_head, wants_lease}
use runscaler.Controller.Drain.{shutdown, begin_drain, stop_work}
use runscaler.Controller.Retry.{clear_retry}
use runscaler.Controller.Backoffs.{second_attempt, Counts}
use runscaler.Controller.Safety.{remove_claimed-MayDestroy, MayDestroy, destroys, LooksIdle}
use runscaler.Controller.Barrier.{completion_blocks_start}
use runscaler.Controller.Rounds.{reconcile_head-MayStart, MayStart}
use runscaler.Controller.Start.{Starting, start_with_lease}
use runscaler.Controller.Starts.{Undone, start_with_lease-Undone}
use runscaler.Controller.Slots.{shutdown-Spent}

abbrev slots : Broker
slots = record {
  limit = pos 2;
  in_use = 1;
  groups = ("set", record { minimum = 0; in_use = 1 }) ∷ [];
  waiters = [];
  leases = record { ticket = 0; group = "set"; released = false } ∷ [];
  next_ticket = 1;
}

abbrev serving : Instances → Controller
serving s = record {
  instances = s;
  broker = slots;
  group = some "set";
  min_runners = 0;
  max_runners = 2;
  desired_runners = 1;
  desired_revision = 4;
  pending_completions = 0;
  demand_stale = false;
  draining = false;
  work_ended = false;
  signalled = false;
  acquiring = none;
  runtime = new_runtime;
  retry_config = default_retry;
  retry_timer = none;
  last_failure_attempt = 0;
  failure_generation = 0;
}

abbrev only : Instance → Controller
only i = serving (record new_instances { entries = ("r1", i) ∷ [] })

abbrev busy_r1 : Instance
busy_r1 = record (provisioned 0) { id = "c1"; runner_id = 11; phase = busy; worked = true }

abbrev idle_r1 : Instance
idle_r1 = record (provisioned 0) { id = "c1"; runner_id = 11; phase = idle }

abbrev leaving_r1 : Instance
leaving_r1 = record idle_r1 {
  phase = removing;
  remove_reason = scaled_down;
  cleanup_in_flight = true;
}

abbrev empty : Controller
empty = serving new_instances

abbrev undisturbed : Controller → Controller
undisturbed c = c

counted : Counts empty false exited_before_ready no_attempt
unfolding has_work
counted = refl

first-counted :
    Counts
      (record_start_attempt empty 10).0
      false
      readiness_timeout
      (record_start_attempt empty 10).1
unfolding has_work record_start_attempt
first-counted = refl

second-counted :
    Counts (second_attempt empty 10 11).0 false readiness_timeout (second_attempt empty 10 11).1
unfolding has_work record_start_attempt
second-counted = refl

abbrev let_go : Answers
let_go = record {
  supported = false;
  diagnostics = record { exit_code = none; oom_killed = none; finished_at = none };
  collecting = undisturbed;
  saving = undisturbed;
  answer = removed;
  destroyed = true;
  meanwhile = undisturbed;
  during = undisturbed;
  now = 50;
}

destroyed : destroys (remove_claimed (only leaving_r1) "r1" "c1" let_go).1 ≡ true
unfolding remove_claimed deregister deregistration is_unassigned_removal collect_failure lookup
destroyed = refl

remove_claimed-MayDestroy_example :
    MayDestroy
      (collect_failure
        (only leaving_r1)
        false
        "r1"
        "c1"
        let_go.diagnostics
        undisturbed
        undisturbed
        50)
      "r1"
      "c1"
      let_go
remove_claimed-MayDestroy_example =
    remove_claimed-MayDestroy (only leaving_r1) "r1" "c1" let_go destroyed

known : deregistration (only leaving_r1).instances "r1" "c1" ≡ some 11
unfolding deregistration is_unassigned_removal lookup
known = refl

looks_idle : LooksIdle (only leaving_r1).instances "r1" "c1"
unfolding is_unassigned_removal lookup
looks_idle = (leaving_r1, refl, refl, refl)

asks : (reconcile_head empty [] [] 5).1 ≡ wants_lease
unfolding reconcile_head claim_removal count scale_target retry_allowed
asks = refl

reconcile_head-MayStart_example :
    MayStart empty 5
    × ((reconcile_head empty [] [] 5).0.instances ≡ empty.instances)
    × ((reconcile_head empty [] [] 5).2 ≡ [])
reconcile_head-MayStart_example = reconcile_head-MayStart empty [] [] 5 asks

abbrev completed : Instances × Option (String × Bool)
completed = mark_done (only busy_r1).instances "r1" job_completed "succeeded"

was_known : completed ≡ (completed.0, some ("c1", true))
unfolding mark_done refuses_done lookup
was_known = refl

completion_blocks_start_example :
    (reconcile_head (handle_job_completed (only busy_r1) "r1" "succeeded" 60) [] [] 61).1
    ≢ wants_lease
completion_blocks_start_example =
    completion_blocks_start (only busy_r1) "r1" "succeeded" 60 completed.0 ("c1", true) [] [] 61
      was_known

abbrev exit : Instances × Option (Attempt × Bool × Bool)
exit = mark_exited (only busy_r1).instances "r1" "c1"

was_tracked : exit ≡ (exit.0, some (no_attempt, false, true))
unfolding mark_exited lookup
was_tracked = refl

issued : Issued 0 slots
unfolding find_lease
issued = (record { ticket = 0; group = "set"; released = false }, refl)

busy-found : find (only busy_r1).instances "r1" ≡ some busy_r1
unfolding lookup
busy-found = refl

shutdown-Spent_example : Spent 0 (shutdown (only busy_r1) undisturbed).0.broker
unfolding begin_drain stop_work clear_retry
shutdown-Spent_example =
    shutdown-Spent (only busy_r1) undisturbed "set" "r1" busy_r1 refl busy-found issued

leaving-found : find (only leaving_r1).instances "r1" ≡ some leaving_r1
unfolding lookup
leaving-found = refl

one_entry : Distinct (only leaving_r1).instances.entries
unfolding lookup
one_entry = (refl, tt)

-- A start that GitHub gives no configuration for.
abbrev starting : Starting percent
starting = record {
  name = "r1";
  low_disk = false;
  jit = none;
  instance_id = none;
  needs_readiness = false;
  token = 0;
  ended = false;
  before_jit = undisturbed;
  before_start = undisturbed;
  cleanup = let_go;
  sample = 50;
  started = 10;
  now = 12;
}

start_with_lease-Undone_example : Undone none "r1" 0 (start_with_lease percent empty 0 starting)
unfolding lookup
start_with_lease-Undone_example =
    start_with_lease-Undone percent empty "set" 0 starting (λ d p. p) (λ d p. p) refl tt issued
      (inl refl)
