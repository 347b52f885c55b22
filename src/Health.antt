-- ===== src/Health.antt =====
-- internal/health/health.go: the health server of the process. A controller and a recorder of
-- metrics stand behind an interface (`Observer`) and answer from the moment's `World`; a response
-- is a record in place of its JSON text. The mutex makes each call one step.
pub mod Handlers
pub mod Readiness
pub mod Events
mod Examples
use runscaler.Base.{
  ℕ, ◌-◌, ◌≡◌, String, str_eq, Bool, true, false, ◌&&◌, ◌||◌, not, Option, none, some, List, [],
  ◌∷◌, ◌++◌, map, length, ltb, if◌then◌else◌,
}
use runscaler.Base.Assoc.{lookup, delete, put, Distinct}
use runscaler.Base.Strings.{◌<>◌, sort}
use runscaler.Controller.{Controller, Runtime, runtime_status}
use runscaler.Instances.{
  Failure, no_failure, readiness_timeout, readiness_unavailable, exited_before_ready,
  exited_unexpectedly, jit_config_failed, provider_start_failed,
}
use runscaler.Instances.Ops.{counts, lifecycle_counts}

-- `connectionState`; `none` is the zero time.
pub record ConnectionState : Type 0 where
  pub ready : Bool
  pub last_error : String
  pub last_connected : Option ℕ

-- The statistics that GitHub sends.
pub record Statistics : Type 0 where
  pub total_available_jobs : ℕ
  pub total_assigned_jobs : ℕ
  pub total_running_jobs : ℕ

pub record Snapshot : Type 0 where
  pub statistics : Option Statistics
  pub jobs_started : ℕ
  pub jobs_completed : ℕ
  pub desired_runners : ℕ
  pub updated_at : Option ℕ

pub record MetricsStatus : Type 0 where
  pub jobs_started : ℕ
  pub jobs_completed : ℕ
  pub desired_runners : ℕ
  pub available_jobs : ℕ
  pub assigned_jobs : ℕ
  pub running_jobs : ℕ

pub record ScaleSetStatus : Type 0 where
  pub name : String
  pub ready : Bool
  pub last_error : String
  pub last_connected : Option ℕ
  pub idle : ℕ
  pub busy : ℕ
  pub provisioning : ℕ
  pub removing : ℕ
  pub metrics : Option MetricsStatus
  pub runtime : Option Runtime

-- `InstanceCounter` with the two interfaces that a controller may have besides, and
-- `MetricsProvider`.
pub record Observer : Type 1 where
  pub World : Type 0
  pub Counter : Type 0
  pub Provider : Type 0
  pub instance_counts : World → Counter → ℕ × ℕ
  pub lifecycle_counter : World → Counter → Option (ℕ × ℕ × ℕ × ℕ)
  pub runtime_provider : World → Counter → Option Runtime
  pub snapshot : World → Provider → Snapshot

pub record CapacityStatus : Type 0 where
  pub limit : ℕ
  pub in_use : ℕ

pub record DiskStatus : Type 0 where
  pub filesystem : String
  pub free_percent : ℕ  -- the bits of a `float64`
  pub free_bytes : ℕ
  pub total_bytes : ℕ

abbrev pub new_connection : ConnectionState
new_connection = record { ready = false; last_error = ""; last_connected = none }

-- A missing key reads as the zero value.
abbrev pub state_or_zero : Option ConnectionState → ConnectionState
state_or_zero none = new_connection
state_or_zero (some s) = s

module _ (ob : Observer) where
  open ob use {
    World, Counter, Provider, instance_counts, lifecycle_counter, runtime_provider, snapshot,
  }

  pub record HealthServer : Type 0 where
    pub start_time : ℕ
    pub version : String
    pub controllers : List (String × Counter)
    pub metrics : List (String × Provider)
    pub states : List (String × ConnectionState)
    pub disk_fn : Option (World → List DiskStatus)
    pub capacity_fn : Option (World → CapacityStatus)

  unfoldable pub new_health_server : String → ℕ → HealthServer
  new_health_server version now = record {
    start_time = now;
    version = version;
    controllers = [];
    metrics = [];
    states = [];
    disk_fn = none;
    capacity_fn = none;
  }

  unfoldable pub connection : HealthServer → String → ConnectionState
  connection h name = state_or_zero (lookup name h.states)

  unfoldable pub register_controller : HealthServer → String → Counter → HealthServer
  register_controller h name c = record h {
    controllers = put name c h.controllers;
    states = put name new_connection h.states;
  }

  unfoldable pub unregister_controller : HealthServer → String → HealthServer
  unregister_controller h name = record h {
    controllers = delete name h.controllers;
    metrics = delete name h.metrics;
    states = delete name h.states;
  }

  unfoldable pub mark_connected : HealthServer → String → ℕ → HealthServer
  mark_connected h name now = record h {
    states =
        put name (record { ready = true; last_error = ""; last_connected = some now }) h.states;
  }

  unfoldable pub mark_disconnected : HealthServer → String → String → HealthServer
  unfolding connection
  mark_disconnected h name reason = record h {
    states = put name (record (connection h name) { ready = false; last_error = reason }) h.states;
  }

  unfoldable pub register_metrics : HealthServer → String → Provider → HealthServer
  register_metrics h name m = record h { metrics = put name m h.metrics }

  unfoldable pub set_disk_provider : HealthServer → (World → List DiskStatus) → HealthServer
  set_disk_provider h f = record h { disk_fn = some f }

  unfoldable pub set_capacity_provider : HealthServer → (World → CapacityStatus) → HealthServer
  set_capacity_provider h f = record h { capacity_fn = some f }

-- The controllers of this program behind the interface: all of them have the optional methods.
abbrev pub controllers_observed : Observer
controllers_observed = record {
  World = String → Controller;
  Counter = String;
  Provider = Snapshot;
  instance_counts = λ w name. counts (w name).instances;
  lifecycle_counter = λ w name. some (lifecycle_counts (w name).instances);
  runtime_provider = λ w name. some (runtime_status (w name));
  snapshot = λ _ s. s;
}
