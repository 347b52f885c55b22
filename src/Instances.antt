-- ===== src/Instances.antt =====
-- internal/controller/state.go: the runners that one scale set manages.
-- The map is an association list by runner name. A method runs under the mutex, so it is one
-- function from state to state. Go's order of iteration over a map is any: where it matters
-- (`markIdleAboveTarget`, `claimRemoval`) it is an argument, the list of names as they are visited.
-- A lease is known by its ticket. A cancel function is known by a number, and `cancelled` lists
-- those that were called. Times and durations are nanoseconds, and the zero time is 0.
pub mod Ops
pub mod Step
pub mod Change
pub mod Effect
pub mod Valid
pub mod Phases
pub mod ScaleDown
pub mod Removal
pub mod Leases
pub mod Bound
mod Examples
use runscaler.Base.{
  ℕ, zero, suc, ◌+◌, ◌-◌, ◌*◌, min, String, str_eq, Bool, true, false, ◌&&◌, ◌||◌, not, Option,
  none, some, List, [], ◌∷◌, ltb, leb, ◌==◌, if◌then◌else◌, is_some,
}
use runscaler.Base.Assoc.{lookup, modify, delete, add}

pub data Phase : Type 0 where
  provisioning idle busy removing : Phase

-- The reasons that `removeReason` takes; `no_reason` is the empty string.
pub data Reason : Type 0 where
  no_reason job_completed scaled_down drain exited shutdown readiness : Reason

-- The reasons of failed starts; `no_failure` is the empty string.
pub data Failure : Type 0 where
  no_failure readiness_timeout readiness_unavailable exited_before_ready exited_unexpectedly
        jit_config_failed provider_start_failed :
      Failure

abbrev pub is_provisioning : Phase → Bool
is_provisioning provisioning = true
is_provisioning _ = false

abbrev pub is_idle : Phase → Bool
is_idle idle = true
is_idle _ = false

abbrev pub is_busy : Phase → Bool
is_busy busy = true
is_busy _ = false

abbrev pub is_removing : Phase → Bool
is_removing removing = true
is_removing _ = false

abbrev pub is_completed : Reason → Bool
is_completed job_completed = true
is_completed _ = false

abbrev pub has_reason : Reason → Bool
has_reason no_reason = false
has_reason _ = true

abbrev pub is_readiness : Reason → Bool
is_readiness readiness = true
is_readiness _ = false

abbrev pub is_exited : Reason → Bool
is_exited exited = true
is_exited _ = false

abbrev pub looked_idle : Reason → Bool
looked_idle scaled_down = true
looked_idle drain = true
looked_idle readiness = true
looked_idle _ = false

abbrev pub is_failure : Failure → Bool
is_failure no_failure = false
is_failure _ = true

pub record JobRef : Type 0 where
  pub id : String
  pub name : String
  pub repo : String
  pub run_id : ℕ
  pub result : String

abbrev pub no_job : JobRef
no_job = record { id = ""; name = ""; repo = ""; run_id = 0; result = "" }

pub record Attempt : Type 0 where
  pub id : ℕ
  pub generation : ℕ

abbrev pub no_attempt : Attempt
no_attempt = record { id = 0; generation = 0 }

abbrev pub same_attempt : Attempt → Attempt → Bool
same_attempt a b = a.id == b.id && a.generation == b.generation

pub record Instance : Type 0 where
  pub id : String
  pub runner_id : ℕ
  pub phase : Phase
  pub lease : ℕ
  pub remove_reason : Reason
  pub job : JobRef
  pub cleanup_in_flight : Bool
  pub cleanup_attempts : ℕ
  pub cleanup_retry_at : ℕ
  pub attempt : Attempt
  pub worked : Bool
  pub readiness_cancel : Option ℕ
  pub jit : String
  pub diagnostics_collected : Bool
  pub diagnostic_reason : Failure

pub record Instances : Type 0 where
  pub entries : List (String × Instance)
  pub cancelled : List ℕ

abbrev pub new_instances : Instances
new_instances = record { entries = []; cancelled = [] }

abbrev pub find : Instances → String → Option Instance
find s name = lookup name s.entries

abbrev pub put : Instances → String → Instance → Instances
put s name i = record s { entries = modify name (λ _. i) s.entries }

abbrev pub cancel : Option ℕ → Instances → Instances
cancel none s = s
cancel (some c) s = record s { cancelled = c ∷ s.cancelled }

abbrev pub provisioned : ℕ → Instance
provisioned lease = record {
  id = "";
  runner_id = 0;
  phase = provisioning;
  lease = lease;
  remove_reason = no_reason;
  job = no_job;
  cleanup_in_flight = false;
  cleanup_attempts = 0;
  cleanup_retry_at = 0;
  attempt = no_attempt;
  worked = false;
  readiness_cancel = none;
  jit = "";
  diagnostics_collected = false;
  diagnostic_reason = no_failure;
}

-- A runner that was removed because it looked idle.
unfoldable pub is_unassigned_removal : Instance → Bool
is_unassigned_removal i = is_removing i.phase && looked_idle i.remove_reason
