-- ===== src/Controller/Start.antt =====
-- The start of a runner: `startInstanceWithLease` of internal/controller/controller.go. The
-- disk check before it changes nothing but the disk; it shows in the calls only. Cancelling the
-- readiness context is modelled where the runner's state does it, not where this function does.
use runscaler.Base.{
  ℕ, String, Bool, true, false, Option, none, some, List, [], ◌∷◌, ◌++◌, if◌then◌else◌,
}
use runscaler.Backoff.{Float}
use runscaler.Instances.{
  Instances, Attempt, Failure, jit_config_failed, provider_start_failed, drain,
}
use runscaler.Instances.Ops.{
  reserve, set_attempt, fail_provision, set_jit, mark_ready, mark_provisioned, mark_done,
}
use runscaler.Controller.{
  Controller, Call, sweep_disk, generate_jit, start_instance, remove_instance, signal_reconcile,
  release_lease,
}
use runscaler.Controller.Retry.{record_start_attempt, record_start_failure, record_start_success}
use runscaler.Controller.Demand.{with_instances}
use runscaler.Controller.Cleanup.{Answers, Verdict, keep, proceed, failed, deregister, finish}

pub record Jit : Type 0 where
  pub encoded : String
  pub runner : Option ℕ

abbrev pub runner_id : Jit → ℕ
runner_id j = elim j.runner [ none ↦ 0 | some r ↦ r ]

pub data Started : Type 0 where
  running not_started : Started

module _ (fl : Float) where
  open fl use {F}

  -- What the world answers to one start. `ended`: the context has ended when a failure is recorded.
  pub record Starting : Type 0 where
    pub name : String
    pub low_disk : Bool
    pub jit : Option Jit
    pub instance_id : Option String
    pub needs_readiness : Bool
    pub token : ℕ  -- the cancel function of the readiness context
    pub ended : Bool
    pub before_jit : Controller → Controller
    pub before_start : Controller → Controller
    pub cleanup : Answers
    pub sample : F
    pub started : ℕ
    pub now : ℕ

  -- The closure `fail`.
  unfoldable pub fail_start : Controller → ℕ → Starting → Attempt → Failure → Controller
  fail_start c lease e attempt why =
      let c' = record_start_failure fl c e.ended why attempt e.sample e.now in
      release_lease (with_instances c' (fail_provision c'.instances e.name)) lease

  abbrev pub settle :
      String
      → String
      → Answers
      → Controller × Verdict × List Call
      → Controller × Started × List Call
  settle name id a (c, keep, calls) = (c, running, calls)
  settle name id a (c, failed, calls) = (c, not_started, calls)
  settle name id a (c, proceed, calls) =
      let c' = a.during c in
      if a.destroyed
      then (finish c' name id, running, calls ++ remove_instance id ∷ [])
      else (c', not_started, calls ++ remove_instance id ∷ [])

  -- The branch of a drain that raced the start.
  abbrev pub settle_drain : Controller → Starting → String → Bool → Controller × Started × List Call
  settle_drain c e id remove_now =
      let c' : Controller =
        if remove_now then c else with_instances c (mark_done c.instances e.name drain "").0 in
      let a = e.cleanup in settle e.name id a (deregister c' e.name id a.answer a.meanwhile a.now)

  abbrev pub tracked_start :
      Controller
      → ℕ
      → Starting
      → Attempt
      → String
      → Instances × Bool × Bool
      → Controller × Started × List Call
  tracked_start c lease e attempt id (s, remove_now, false) =
      (release_lease (with_instances c s) lease, not_started, remove_instance id ∷ [])
  tracked_start c lease e attempt id (s, remove_now, true) =
      let c' : Controller =
        if e.needs_readiness
        then with_instances c s
        else record_start_success (with_instances c s) attempt e.now in
      if c'.draining
      then settle_drain c' e id remove_now
      else if remove_now
      then (signal_reconcile c', running, [])
      else (c', running, [])

  -- `StartInstance` has returned.
  abbrev pub provider_started :
      Controller → ℕ → Starting → Attempt → Jit → Option String → Controller × Started × List Call
  provider_started c lease e attempt j none =
      (fail_start c lease e attempt provider_start_failed, not_started, [])
  provider_started c lease e attempt j (some id) = tracked_start c lease e attempt id (
      if e.needs_readiness
      then mark_provisioned c.instances e.name id (runner_id j) e.token
      else mark_ready c.instances e.name id (runner_id j))

  abbrev pub prepend :
      List Call → Controller × Started × List Call → Controller × Started × List Call
  prepend calls (c, r, more) = (c, r, calls ++ more)

  -- `GenerateJitRunnerConfig` has returned.
  abbrev pub jit_generated :
      Controller → ℕ → Starting → Attempt → Option Jit → Controller × Started × List Call
  jit_generated c lease e attempt none =
      (fail_start c lease e attempt jit_config_failed, not_started, [])
  jit_generated c lease e attempt (some j) =
      let c' = with_instances c (set_jit c.instances e.name j.encoded) in
      prepend (start_instance e.name ∷ [])
        (provider_started (e.before_start c') lease e attempt j e.instance_id)

  abbrev pub reserved_start :
      Controller → ℕ → Starting → Instances × Bool → Controller × Started × List Call
  reserved_start c lease e (s, false) = (release_lease (with_instances c s) lease, not_started, [])
  reserved_start c lease e (s, true) =
      let (c', attempt) = record_start_attempt (with_instances c s) e.started in
      let c'' = with_instances c' (set_attempt c'.instances e.name attempt) in
      prepend ((if e.low_disk then sweep_disk ∷ [] else []) ++ generate_jit e.name ∷ [])
        (jit_generated (e.before_jit c'') lease e attempt e.jit)

  -- `before_jit` and `before_start`: what others do until GitHub and the provider have answered.
  unfoldable pub start_with_lease : Controller → ℕ → Starting → Controller × Started × List Call
  start_with_lease c lease e = reserved_start c lease e (reserve c.instances e.name lease)
