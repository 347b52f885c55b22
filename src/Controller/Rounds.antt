-- ===== src/Controller/Rounds.antt =====
-- When the reconciler of internal/controller/controller.go starts a runner.
use runscaler.Base.{
  ℕ, ◌+◌, ◌≤◌, ◌<◌, min, ◌≡◌, inl, inr, String, Bool, true, false, ◌||◌, Option, none, some, List,
  [], arith, ltb, if◌then◌else◌, Bool-cases,
}
use runscaler.Instances.{Instances}
use runscaler.Instances.Ops.{count}
use runscaler.Instances.Ops.Claims.{claim_removal, mark_idle_above_target}
use runscaler.Controller.{Controller, scale_target}
use runscaler.Controller.Retry.{retry_allowed}
use runscaler.Controller.Reconcile.{reconcile_head, claimed_round, scaled, wants_lease}

-- All that a scale-up waits for.
pub record MayStart (c : Controller) (now : ℕ) : Type 0 where
  pub serving : c.draining ≡ false
  pub working : c.work_ended ≡ false
  pub no_completion : c.pending_completions ≡ 0
  pub fresh_demand : c.demand_stale ≡ false
  pub below_target : count c.instances < min c.max_runners (c.min_runners + c.desired_runners)
  pub retry_due : c.runtime.next_retry_at ≤ now

scaled-wants_lease :
    (c : Controller) (target now : ℕ) (r : Instances × Bool)
    → (scaled c target now r).1 ≡ wants_lease
    → (count c.instances < target)
      × (c.runtime.next_retry_at ≤ now)
      × ((scaled c target now r).0.instances ≡ c.instances)
      × ((scaled c target now r).2 ≡ [])
unfolding retry_allowed
scaled-wants_lease c target now (s, true) h = absurd (ground arith)
scaled-wants_lease c target now (s, false) h = ground arith

claimed-wants_lease :
    (c : Controller) (names : List String) (now : ℕ) (o : Option (Instances × String × String))
    → (claimed_round c names now o).1 ≡ wants_lease
    → (c.pending_completions ≡ 0)
      × (c.demand_stale ≡ false)
      × (count c.instances < min c.max_runners (c.min_runners + c.desired_runners))
      × (c.runtime.next_retry_at ≤ now)
      × ((claimed_round c names now o).0.instances ≡ c.instances)
      × ((claimed_round c names now o).2 ≡ [])
unfolding scale_target
claimed-wants_lease c names now (some (s, name, id)) h = absurd (ground arith)
claimed-wants_lease c names now none h =
    let target = min c.max_runners (c.min_runners + c.desired_runners) in
    ground (
      arith,
      scaled-wants_lease c target now (
          if ltb target (count c.instances)
          then mark_idle_above_target c.instances names target
          else (c.instances, false)),
    )

-- A round of the reconciler asks for a lease only if it serves, no completed job waits for a fresh
-- demand, fewer runners count than the target min(max, min + desired), and the retry is due. It has
-- changed no runner and called nobody until then.
pub reconcile_head-MayStart :
    (c : Controller) (names names' : List String) (now : ℕ)
    → (reconcile_head c names names' now).1 ≡ wants_lease
    → MayStart c now
      × ((reconcile_head c names names' now).0.instances ≡ c.instances)
      × ((reconcile_head c names names' now).2 ≡ [])
unfolding reconcile_head
reconcile_head-MayStart c names names' now h = elim (Bool-cases (c.draining || c.work_ended)) [
  | inl stop ↦ absurd (ground arith)
  | inr go ↦
      let (p, d, b, r, same, quiet) =
        claimed-wants_lease c names' now (claim_removal c.instances names now) (rw go at h) in
      (
        record {
          serving = ground arith;
          working = ground arith;
          no_completion = p;
          fresh_demand = d;
          below_target = b;
          retry_due = r;
        },
        rw go same,
        rw go quiet,
      )
]
