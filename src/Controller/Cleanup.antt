-- ===== src/Controller/Cleanup.antt =====
-- The cleanup of a runner: `collectFailure` (internal/controller/diagnostics.go), `deregister`,
-- `finishRemoval` and `removeClaimedInstance` (controller.go). The report that `collectFailure`
-- saves to disk is not modelled.
use runscaler.Base.{
  ℕ, String, Bool, true, false, Option, none, some, List, [], ◌∷◌, ◌++◌, ◌==◌, if◌then◌else◌,
}
use runscaler.Instances.{Instances, Failure}
use runscaler.Instances.Ops.{claim_diagnostics, deregistration, restore_busy, attempt_of}
use runscaler.Instances.Ops.Claims.{retry_removal, finish_removal, Removed}
use runscaler.Controller.{
  Controller, Call, remove_runner, remove_instance, ExitDiagnostics, signal_reconcile,
  release_lease,
}
use runscaler.Controller.Retry.{record_work_success}
use runscaler.Controller.Demand.{with_instances}

abbrev pub noted_failure : Controller → Failure → ExitDiagnostics → ℕ → Controller
noted_failure c why d now =
    let r = c.runtime in
    record c {
      runtime = record r {
        last_failure = some (record { reason = why; timestamp = now; diagnostics = d });
      };
    }

abbrev pub collected :
    Controller
    → ExitDiagnostics
    → (Controller → Controller)
    → (Controller → Controller)
    → ℕ
    → Instances × Option (Failure × String)
    → Controller
collected c d collecting saving now (s, none) = with_instances c s
collected c d collecting saving now (s, some (why, jit)) =
    saving (noted_failure (collecting (with_instances c s)) why d now)

-- `supported`: the provider collects diagnostics, and a store for them is configured. `collecting`
-- and `saving`: what other goroutines do while the provider is asked, and while the report is saved.
unfoldable pub collect_failure :
    Controller
    → Bool
    → String
    → String
    → ExitDiagnostics
    → (Controller → Controller)
    → (Controller → Controller)
    → ℕ
    → Controller
collect_failure c supported name id d collecting saving now =
    if supported
    then collected c d collecting saving now (claim_diagnostics c.instances name id)
    else c

-- GitHub's answer to `RemoveRunner`.
pub data RemoveAnswer : Type 0 where
  removed not_found job_running refused : RemoveAnswer

-- `keep`, a nil error with no `keep`, or an error.
pub data Verdict : Type 0 where
  keep proceed failed : Verdict

abbrev pub restored : Controller → String → ℕ → Instances × Bool → Controller × Verdict
restored c name now (s, true) =
    (record_work_success (with_instances c s) (attempt_of s name) now, keep)
restored c name now (s, false) = (with_instances c s, proceed)

abbrev pub answered : Controller → String → String → RemoveAnswer → ℕ → Controller × Verdict
answered c name id removed now = (c, proceed)
answered c name id not_found now = (c, proceed)
answered c name id job_running now = restored c name now (restore_busy c.instances name id)
answered c name id refused now = (c, failed)

abbrev pub deregister_as :
    Controller
    → String
    → String
    → RemoveAnswer
    → (Controller → Controller)
    → ℕ
    → Option ℕ
    → Controller × Verdict × List Call
deregister_as c name id answer meanwhile now none = (c, proceed, [])
deregister_as c name id answer meanwhile now (some runner) =
    if runner == 0
    then (c, failed, [])
    else let (c', verdict) = answered (meanwhile c) name id answer now in
      (c', verdict, remove_runner runner ∷ [])

-- `meanwhile`: what other goroutines do while GitHub is asked.
unfoldable pub deregister :
    Controller
    → String
    → String
    → RemoveAnswer
    → (Controller → Controller)
    → ℕ
    → Controller × Verdict × List Call
deregister c name id answer meanwhile now =
    deregister_as c name id answer meanwhile now (deregistration c.instances name id)

abbrev pub finished : Controller → Instances × Option Removed → Controller
finished c (s, none) = with_instances c s
finished c (s, some r) = signal_reconcile (release_lease (with_instances c s) r.lease)

unfoldable pub finish : Controller → String → String → Controller
finish c name id = finished c (finish_removal c.instances name id)

unfoldable pub retry : Controller → String → String → ℕ → Controller
retry c name id now = with_instances c (retry_removal c.instances name id now).0

-- What the world answers to one cleanup.
pub record Answers : Type 0 where
  pub supported : Bool
  pub diagnostics : ExitDiagnostics
  pub collecting : Controller → Controller
  pub saving : Controller → Controller
  pub answer : RemoveAnswer
  pub destroyed : Bool  -- `RemoveInstance` succeeds
  pub meanwhile : Controller → Controller
  pub during : Controller → Controller  -- while the provider removes the instance
  pub now : ℕ

abbrev pub destroy : Controller → String → String → Answers → List Call → Controller × List Call
destroy c name id a calls =
    let c' = a.during c in
    (
      if a.destroyed then finish c' name id else retry c' name id a.now,
      calls ++ remove_instance id ∷ [],
    )

abbrev pub judged :
    String → String → Answers → Controller × Verdict × List Call → Controller × List Call
judged name id a (c, keep, calls) = (signal_reconcile c, calls)
judged name id a (c, failed, calls) = (retry c name id a.now, calls)
judged name id a (c, proceed, calls) = destroy c name id a calls

unfoldable pub remove_claimed : Controller → String → String → Answers → Controller × List Call
remove_claimed c name id a = judged name id a (
    deregister (collect_failure c a.supported name id a.diagnostics a.collecting a.saving a.now)
      name id a.answer a.meanwhile a.now)
