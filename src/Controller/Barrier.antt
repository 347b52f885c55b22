-- ===== src/Controller/Barrier.antt =====
-- The barriers against scaling up from stale demand (internal/controller/controller.go).
use runscaler.Base.{
  ℕ, ◌+◌, ◌<◌, min, ◌≡◌, sym, ap, ◌∙◌, subst, ◌≢◌, String, Bool, true, false, some, List, arith,
  ◌==◌, if◌then◌else◌,
}
use runscaler.Backoff.{Float}
use runscaler.Instances.{Instances, Attempt, job_completed, exited_before_ready}
use runscaler.Instances.Ops.{mark_done, mark_exited}
use runscaler.Controller.{Controller, signal_reconcile, scale_target, target_runner_count}
use runscaler.Controller.Retry.{record_start_failure}
use runscaler.Controller.Demand.{
  handle_desired, handle_job_completed, completed_at, handle_exit, exit_marked, exit_recorded,
  with_instances,
}
use runscaler.Controller.Reconcile.{reconcile_head, wants_lease}
use runscaler.Controller.Rounds.{reconcile_head-MayStart}

signal-pending : (c : Controller) → (signal_reconcile c).pending_completions ≡ c.pending_completions
unfolding signal_reconcile
signal-pending c = ground arith

signal-stale : (c : Controller) → (signal_reconcile c).demand_stale ≡ c.demand_stale
unfolding signal_reconcile
signal-stale c = ground arith

completed-pending :
    (c : Controller) (name : String) (now : ℕ) (s : Instances) (r : String × Bool)
    → 0 < (completed_at c name now (s, some r)).pending_completions
completed-pending c name now s (id, true) = omega (arith, signal-pending _)
completed-pending c name now s (id, false) = omega arith

-- Once the completion of a known runner's job is handled, the next round of the reconciler does not ask
-- for a lease.
pub completion_blocks_start :
    (c : Controller) (name result : String) (now : ℕ) (s : Instances) (r : String × Bool)
    (names names' : List String) (later : ℕ)
    → mark_done c.instances name job_completed result ≡ (s, some r)
    → (reconcile_head (handle_job_completed c name result now) names names' later).1 ≢ wants_lease
unfolding handle_job_completed
completion_blocks_start c name result now s r names names' later e h =
    let c' = handle_job_completed c name result now in
    let may = (reconcile_head-MayStart c' names names' later h).0 in
    let counted : 0 < c'.pending_completions =
      subst (λ x. 0 < (completed_at c name now x).pending_completions) (sym e)
        (completed-pending c name now s r) in
    absurd (omega (arith, may.no_completion, counted))

failure-stale :
    (fl : Float) (c : Controller) (ended : Bool) (a : Attempt) (x : fl.F) (now : ℕ)
    → (record_start_failure fl c ended exited_before_ready a x now).demand_stale ≡ c.demand_stale
unfolding record_start_failure
failure-stale fl c ended a x now = ground arith

exit_recorded-stale :
    (fl : Float) (c : Controller) (revision : ℕ) (e : Attempt × Bool × Bool) (x : fl.F) (now : ℕ)
    → (exit_recorded fl c revision e x now).demand_stale
      ≡ (if c.desired_revision == revision then true else c.demand_stale)
exit_recorded-stale fl c revision (a, unassigned, worked) x now =
    let c' : Controller =
      if c.desired_revision == revision then record c { demand_stale = true } else c in
    signal-stale _ ∙ ground (arith, failure-stale fl c' c'.work_ended a x now)

exit_marked-stale :
    (fl : Float) (c : Controller) (revision : ℕ) (meanwhile : Controller → Controller) (x : fl.F)
    (now : ℕ) (s : Instances) (e : Attempt × Bool × Bool)
    → (exit_marked fl c revision meanwhile x now (s, some e)).demand_stale ≡ (
        let m = meanwhile (with_instances c s) in
        if m.desired_revision == revision then true else m.demand_stale)
exit_marked-stale fl c revision meanwhile x now s e =
    exit_recorded-stale fl (meanwhile (with_instances c s)) revision e x now

-- The exit of a tracked runner makes the demand stale, unless a desired count was received since the
-- exit was seen: then the demand is as stale as it was.
exit-demand_stale :
    (fl : Float) (c : Controller) (name id : String) (before meanwhile : Controller → Controller)
    (x : fl.F) (now : ℕ) (s : Instances) (e : Attempt × Bool × Bool)
    → mark_exited (before c).instances name id ≡ (s, some e)
    → let m = meanwhile (with_instances (before c) s) in
      (handle_exit fl c name id before meanwhile x now).demand_stale
      ≡ (if m.desired_revision == c.desired_revision then true else m.demand_stale)
unfolding handle_exit
exit-demand_stale fl c name id before meanwhile x now s e h =
    ap (λ r. (exit_marked fl (before c) c.desired_revision meanwhile x now r).demand_stale) h
    ∙ exit_marked-stale fl (before c) c.desired_revision meanwhile x now s e

-- A desired count received while serving replaces the demand, lifts both barriers, and is answered
-- by the target min(max, min + desired).
handle_desired-target :
    (c : Controller) (n : ℕ)
    → c.draining ≡ false
    → let r = handle_desired c false n in
      (scale_target r.0 ≡ (min c.max_runners (c.min_runners + n), true))
      × (r.1 ≡ min c.max_runners (c.min_runners + n))
      × (r.0.desired_revision ≡ c.desired_revision + 1)
      × (r.0.signalled ≡ true)
unfolding handle_desired scale_target target_runner_count signal_reconcile
handle_desired-target c n h = ground arith
