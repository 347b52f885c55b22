-- ===== src/Health/Handlers.antt =====
-- `handleHealthz` and `handleReadyz` of internal/health/health.go.
use mathlib.Core.Option
use runscaler.Base.{
  ℕ, ◌-◌, String, str_eq, Bool, true, false, ◌&&◌, ◌||◌, not, Option, none, some, List, [], ◌∷◌,
  ◌++◌, map, length, ltb, if◌then◌else◌,
}
use runscaler.Base.Assoc.{lookup}
use runscaler.Base.Strings.{◌<>◌, sort}
use runscaler.Controller.{Runtime}
use runscaler.Instances.{
  Failure, no_failure, readiness_timeout, readiness_unavailable, exited_before_ready,
  exited_unexpectedly, jit_config_failed, provider_start_failed,
}
use runscaler.Health.{
  Statistics, Snapshot, MetricsStatus, ScaleSetStatus, Observer, DiskStatus, CapacityStatus,
  HealthServer, connection,
}

abbrev pub failure_text : Failure → String
failure_text no_failure = ""
failure_text readiness_timeout = "readiness_timeout"
failure_text readiness_unavailable = "readiness_unavailable"
failure_text exited_before_ready = "runner_exited_before_ready"
failure_text exited_unexpectedly = "runner_exited_unexpectedly"
failure_text jit_config_failed = "jit_config_failed"
failure_text provider_start_failed = "provider_start_failed"

module _ (ob : Observer) where
  open ob use {World, Counter, instance_counts, lifecycle_counter, runtime_provider, snapshot}

  pub record HealthResponse : Type 0 where
    pub status : String
    pub version : String
    pub uptime : ℕ  -- in seconds
    pub scale_sets : List ScaleSetStatus
    pub disk : Option (List DiskStatus)
    pub capacity : Option CapacityStatus

  abbrev pub statistics_of : Option Statistics → ℕ × ℕ × ℕ
  statistics_of none = (0, 0, 0)
  statistics_of (some s) = (s.total_available_jobs, s.total_assigned_jobs, s.total_running_jobs)

  abbrev pub metrics_status : Snapshot → MetricsStatus
  metrics_status s =
      let (available, assigned, running) = statistics_of s.statistics in
      record {
        jobs_started = s.jobs_started;
        jobs_completed = s.jobs_completed;
        desired_runners = s.desired_runners;
        available_jobs = available;
        assigned_jobs = assigned;
        running_jobs = running;
      }

  abbrev pub with_runtime : ScaleSetStatus → Option Runtime → ScaleSetStatus
  with_runtime ss none = ss
  with_runtime ss (some r) = record ss {
    runtime = some r;
    ready = ss.ready && not r.draining && not r.degraded;
    last_error =
        if r.degraded && str_eq ss.last_error ""
        then "runner startup failed: " <> failure_text r.failure_reason
        else ss.last_error;
  }

  abbrev pub with_lifecycle : ScaleSetStatus → Option (ℕ × ℕ × ℕ × ℕ) → ScaleSetStatus
  with_lifecycle ss none = ss
  with_lifecycle ss (some (provisioning, idle, busy, removing)) = record ss {
    provisioning = provisioning;
    idle = idle;
    busy = busy;
    removing = removing;
  }

  -- The entry of one scale set.
  unfoldable pub status_of : HealthServer ob → World → String → Counter → ScaleSetStatus
  unfolding connection
  status_of h w name c =
      let (idle, busy) = instance_counts w c in
      let state = connection ob h name in
      let ss : ScaleSetStatus = record {
        name = name;
        ready = state.ready;
        last_error = state.last_error;
        last_connected = state.last_connected;
        idle = idle;
        busy = busy;
        provisioning = 0;
        removing = 0;
        metrics = Option.map (λ m. metrics_status (snapshot w m)) (lookup name h.metrics);
        runtime = none;
      } in
      with_runtime (with_lifecycle ss (lifecycle_counter w c)) (runtime_provider w c)

  -- The loop of `handleHealthz` over the sorted names: `controllers[name]` of each. A name comes
  -- from the map, so that the first clause is not taken.
  abbrev pub status_at : HealthServer ob → World → String → Option Counter → List ScaleSetStatus
  status_at h w name none = []
  status_at h w name (some c) = status_of h w name c ∷ []

  unfoldable pub statuses : HealthServer ob → World → List String → List ScaleSetStatus
  statuses h w [] = []
  statuses h w (name ∷ names) = status_at h w name (lookup name h.controllers) ++ statuses h w names

  abbrev pub overall : List ScaleSetStatus → String
  overall [] = "ok"
  overall (ss ∷ rest) = if ss.ready then overall rest else "degraded"

  unfoldable pub handle_healthz : HealthServer ob → World → ℕ → HealthResponse
  unfolding statuses
  handle_healthz h w now =
      let names = sort (map (λ e. e.0) h.controllers) in
      let entries = statuses h w names in
      record {
        status = overall entries;
        version = h.version;
        uptime = now - h.start_time;
        scale_sets = entries;
        disk = Option.map (λ f. f w) h.disk_fn;
        capacity = Option.map (λ f. f w) h.capacity_fn;
      }

  abbrev pub is_running : Option Runtime → Bool
  is_running none = true
  is_running (some r) = not (r.draining || r.degraded)

  -- The loop of `handleReadyz`, which ends at the first scale set that is not ready.
  unfoldable pub all_ready : HealthServer ob → World → List (String × Counter) → Bool
  unfolding connection
  all_ready h w [] = true
  all_ready h w ((name, c) ∷ rest) =
      if not (connection ob h name).ready
      then false
      else if not (is_running (runtime_provider w c))
      then false
      else all_ready h w rest

  -- Whether the answer is 200 (`ok`) and not 503 (`not ready`).
  unfoldable pub handle_readyz : HealthServer ob → World → Bool
  unfolding all_ready
  handle_readyz h w = ltb 0 (length h.controllers) && all_ready h w h.controllers
