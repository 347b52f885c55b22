-- ===== src/Controller.antt =====
-- internal/controller/controller.go, retry.go, runtime.go, readiness.go and diagnostics.go: the
-- controller of one scale set, over its runners (`Instances`) and the process-wide broker
-- (`Capacity`). A handler is a function from controller to controller; what GitHub, the provider,
-- the clock and the random source answer are arguments. Where a handler waits for such an answer
-- the other goroutines go on: what they do meanwhile is an argument too, any function on
-- controllers. Calls that leave the process are listed in the order in which they are made.
pub mod Retry
pub mod Demand
pub mod Cleanup
pub mod Start
pub mod Reconcile
pub mod Drain
pub mod Backoffs
pub mod Safety
pub mod Barrier
pub mod Rounds
pub mod Slots
pub mod Starts
pub mod Wakeups
mod Examples
use runscaler.Base.{
  ℕ, ◌+◌, min, ◌≡◌, String, Bool, true, false, ◌&&◌, not, Option, none, some, List, [], ◌∷◌, ltb,
  leb, ◌==◌, if◌then◌else◌,
}
use runscaler.Base.Int.{ℤ, pos}
use runscaler.Backoff.{RetryConfig, default_retry}
use runscaler.Capacity.{Broker, release, registered, new_broker}
use runscaler.Instances.{Instances, Failure, no_failure, new_instances}
use runscaler.Instances.Ops.{counts}

pub data RetryState : Type 0 where
  no_retry backing_off cooling_down : RetryState

pub data Readiness : Type 0 where
  unknown verified unverified : Readiness

-- What the provider reports of an exited instance.
pub record ExitDiagnostics : Type 0 where
  pub exit_code : Option ℤ
  pub oom_killed : Option Bool
  pub finished_at : Option ℕ

pub record FailureSummary : Type 0 where
  pub reason : Failure
  pub timestamp : ℕ
  pub diagnostics : ExitDiagnostics

-- `metrics.RuntimeStatus`.
pub record Runtime : Type 0 where
  pub unexpected_exits : ℕ
  pub start_attempts : ℕ
  pub start_failures : ℕ
  pub consecutive_start_failures : ℕ
  pub last_start_attempt : ℕ
  pub last_successful_start : ℕ
  pub failure_reason : Failure
  pub waiting_for_capacity : Bool
  pub draining : Bool
  pub degraded : Bool
  pub readiness : Readiness
  pub last_failure : Option FailureSummary
  pub retry_state : RetryState
  pub next_retry_at : ℕ

pub record Controller : Type 0 where
  pub instances : Instances
  pub broker : Broker
  pub group : Option String  -- the allocator; `none` has no broker
  pub min_runners : ℕ
  pub max_runners : ℕ
  pub desired_runners : ℕ
  pub desired_revision : ℕ
  pub pending_completions : ℕ
  pub demand_stale : Bool
  pub draining : Bool
  pub work_ended : Bool  -- `workCtx` is cancelled
  pub signalled : Bool  -- a wakeup is in the channel `reconcile`
  pub acquiring : Option Bool  -- `cancelAcquire` is set, and whether it was called
  pub runtime : Runtime
  pub retry_config : RetryConfig
  pub retry_timer : Option ℕ  -- when the timer fires
  pub last_failure_attempt : ℕ
  pub failure_generation : ℕ

-- The calls to GitHub, to the provider and to the disk guard, and the cleanups started.
pub data Call : Type 0 where
  sweep_disk : Call
  generate_jit : String → Call
  start_instance : String → Call
  remove_runner : ℕ → Call
  remove_instance : String → Call
  clean_up : String → String → Call

unfoldable pub signal_reconcile : Controller → Controller
signal_reconcile c = if c.draining then c else record c {
  acquiring = elim c.acquiring [ none ↦ none | some _ ↦ some true ];
  signalled = true;
}

unfoldable pub target_runner_count : Controller → ℕ
target_runner_count c = min c.max_runners (c.min_runners + c.desired_runners)

unfoldable pub scale_target : Controller → ℕ × Bool
scale_target c = (
  min c.max_runners (c.min_runners + c.desired_runners),
  c.pending_completions == 0 && not c.demand_stale,
)

unfoldable pub set_capacity_waiting : Controller → Bool → Controller
set_capacity_waiting c waiting =
    let r = c.runtime in record c { runtime = record r { waiting_for_capacity = waiting } }

-- The lease of an allocator without a broker is empty, and its release does nothing.
abbrev pub release_lease : Controller → ℕ → Controller
release_lease c t = elim c.group [ none ↦ c | some _ ↦ record c { broker = release c.broker t } ]

-- `RuntimeStatus`.
unfoldable pub runtime_status : Controller → Runtime
unfolding scale_target counts
runtime_status c =
    let (target, can_scale) = scale_target c in
    let (idle, busy) = counts c.instances in
    let r = c.runtime in
    record r {
      draining = c.draining;
      degraded =
          not c.draining
          && not r.waiting_for_capacity
          && can_scale
          && ltb 0 r.consecutive_start_failures
          && ltb (idle + busy) target;
    }

abbrev pub new_runtime : Runtime
new_runtime = record {
  unexpected_exits = 0;
  start_attempts = 0;
  start_failures = 0;
  consecutive_start_failures = 0;
  last_start_attempt = 0;
  last_successful_start = 0;
  failure_reason = no_failure;
  waiting_for_capacity = false;
  draining = false;
  degraded = false;
  readiness = unknown;
  last_failure = none;
  retry_state = no_retry;
  next_retry_at = 0;
}

abbrev pub with_group : Option String → Broker → ℕ → ℕ → Controller
with_group group broker min_runners max_runners = record {
  instances = new_instances;
  broker = broker;
  group = group;
  min_runners = min_runners;
  max_runners = max_runners;
  desired_runners = 0;
  desired_revision = 0;
  pending_completions = 0;
  demand_stale = false;
  draining = false;
  work_ended = false;
  signalled = false;
  acquiring = none;
  runtime = new_runtime;
  retry_config = default_retry;
  retry_timer = none;
  last_failure_attempt = 0;
  failure_generation = 0;
}

-- `NewScaleSetController` with a broker of its own, and with one that it is given
-- (`WithCapacityAllocator`).
unfoldable pub new_controller : ℕ → ℕ → Controller
new_controller min_runners max_runners =
    with_group (some "standalone")
      (registered (new_broker (pos max_runners)) "standalone" (pos min_runners)) min_runners
      max_runners

unfoldable pub with_capacity_allocator : Broker → String → Controller → Controller
with_capacity_allocator broker group c = record c { broker = broker; group = some group }

-- `WithRetry`.
unfoldable pub with_retry : RetryConfig → Controller → Controller
with_retry settings c = record c { retry_config = settings }
