-- ===== src/Controller/Safety.antt =====
-- What a cleanup may destroy (`removeClaimedInstance` and `deregister` of
-- internal/controller/controller.go).
use runscaler.Base.{
  ℕ, ◌≡◌, refl, ap, ◌∙◌, ◌<◌, ◌⊎◌, inl, inr, String, eq_iff, eq_refl, Bool, true, false, Option,
  none, some, List, [], ◌∷◌, arith, ◌==◌, Bool-cases, Option-cases,
}
use runscaler.Base.Assoc.{lookup-modify}
use runscaler.Instances.{
  Instances, Instance, Attempt, no_reason, busy, find, put, is_unassigned_removal,
}
use runscaler.Instances.Ops.{deregistration, restore_busy, restore_busy_at}
use runscaler.Controller.{Controller, Call, remove_instance, remove_runner}
use runscaler.Controller.Retry.{record_work_success}
use runscaler.Controller.Cleanup.{
  Answers, RemoveAnswer, removed, not_found, job_running, refused, Verdict, keep, proceed, failed,
  remove_claimed, deregister, deregister_as, answered, restored, collect_failure, judged,
}

-- Whether an instance is destroyed by the calls.
abbrev pub destroys : List Call → Bool
destroys [] = false
destroys (remove_instance id ∷ calls) = true
destroys (_ ∷ calls) = destroys calls

abbrev pub gone_from_github : RemoveAnswer → Bool
gone_from_github removed = true
gone_from_github not_found = true
gone_from_github _ = false

restore_busy-refused :
    (s t : Instances) (name id : String)
    → restore_busy s name id ≡ (t, false)
    → deregistration s name id ≡ none
unfolding restore_busy deregistration
restore_busy-refused s t name id h = elim (Option-cases (find s name)) [
  | inl e ↦ rw e
  | inr (i, e) ↦ ground (arith, e)
]

-- Why a cleanup may go on: the runner was not one that looked idle, or GitHub had let it go, or
-- GitHub said that it runs a job and then its job completed (or it exited) while GitHub was asked.
abbrev pub MayDestroy : Controller → String → String → Answers → Type 0
MayDestroy c name id a =
    (deregistration c.instances name id ≡ none)
    ⊎ (gone_from_github a.answer ≡ true)
    ⊎ ((a.answer ≡ job_running) × (deregistration (a.meanwhile c).instances name id ≡ none))

abbrev Judged : Controller → String → String → Answers → Controller × Verdict × List Call → Type 0
Judged c name id a (c', v, calls) =
    (v ≡ proceed → MayDestroy c name id a) × (destroys calls ≡ false)

restored-Judged :
    (c : Controller) (name id : String) (a : Answers) (runner : ℕ) (r : Instances × Bool)
    → a.answer ≡ job_running
    → restore_busy (a.meanwhile c).instances name id ≡ r
    → let (c', v) = restored (a.meanwhile c) name a.now r in
      Judged c name id a (c', v, remove_runner runner ∷ [])
restored-Judged c name id a runner (s, true) e h = (λ k. absurd (ground arith), refl)
restored-Judged c name id a runner (s, false) e h =
    (λ k. inr (inr (e, restore_busy-refused (a.meanwhile c).instances s name id h)), refl)

answered-Judged :
    (c : Controller) (name id : String) (a : Answers) (runner : ℕ) (answer : RemoveAnswer)
    → a.answer ≡ answer
    → let (c', v) = answered (a.meanwhile c) name id answer a.now in
      Judged c name id a (c', v, remove_runner runner ∷ [])
answered-Judged c name id a runner removed e = (λ k. inr (inl (rw e)), refl)
answered-Judged c name id a runner not_found e = (λ k. inr (inl (rw e)), refl)
answered-Judged c name id a runner job_running e =
    restored-Judged c name id a runner (restore_busy (a.meanwhile c).instances name id) e refl
answered-Judged c name id a runner refused e = (λ k. absurd (ground arith), refl)

deregister_as-Judged :
    (c : Controller) (name id : String) (a : Answers) (o : Option ℕ)
    → deregistration c.instances name id ≡ o
    → Judged c name id a (deregister_as c name id a.answer a.meanwhile a.now o)
deregister_as-Judged c name id a none e = (λ k. inl e, refl)
deregister_as-Judged c name id a (some runner) e = elim (Bool-cases (runner == 0)) [
  | inl none_known ↦ rw none_known (λ k. absurd (ground arith), refl)
  | inr known ↦ rw known (answered-Judged c name id a runner a.answer refl)
]

deregister-Judged :
    (c : Controller) (name id : String) (a : Answers)
    → Judged c name id a (deregister c name id a.answer a.meanwhile a.now)
unfolding deregister
deregister-Judged c name id a =
    deregister_as-Judged c name id a (deregistration c.instances name id) refl

judged-MayDestroy :
    (c : Controller) (name id : String) (a : Answers) (r : Controller × Verdict × List Call)
    → Judged c name id a r
    → destroys (judged name id a r).1 ≡ true
    → MayDestroy c name id a
judged-MayDestroy c name id a (c', keep, calls) (may, quiet) h = absurd (ground arith)
judged-MayDestroy c name id a (c', failed, calls) (may, quiet) h = absurd (ground arith)
judged-MayDestroy c name id a (c', proceed, calls) (may, quiet) h = may refl

-- Whatever GitHub and the provider answer and whatever the other goroutines do meanwhile, a cleanup
-- destroys the instance only if the runner was not one that looked idle, or GitHub had let it go,
-- or GitHub said that it runs a job and it had left the idle removal by the time of the answer.
pub remove_claimed-MayDestroy :
    (c : Controller) (name id : String) (a : Answers)
    → destroys (remove_claimed c name id a).1 ≡ true
    → MayDestroy
        (collect_failure c a.supported name id a.diagnostics a.collecting a.saving a.now)
        name
        id
        a
unfolding remove_claimed
remove_claimed-MayDestroy c name id a h =
    let c' = collect_failure c a.supported name id a.diagnostics a.collecting a.saving a.now in
    judged-MayDestroy c' name id a _ (deregister-Judged c' name id a) h

find-put_self :
    (s : Instances) (name : String) (i j : Instance)
    → find s name ≡ some i
    → find (put s name j) name ≡ some j
find-put_self s name i j e =
    rw (lookup-modify name name (λ _. j) s.entries, eq_refl name) (ground arith)

-- The runner is in the map as one that looked idle, under that ID.
abbrev pub LooksIdle : Instances → String → String → Type 0
LooksIdle s name id =
    (i : Instance) × (find s name ≡ some i) × (i.id ≡ id) × (is_unassigned_removal i ≡ true)

restore_busy_lem :
    (s : Instances) (name id : String)
    → LooksIdle s name id
    → (j : Instance) × (restore_busy s name id ≡ (put s name j, true))
      × (find (put s name j) name ≡ some j)
      × (j.phase ≡ busy)
unfolding restore_busy
restore_busy_lem s name id (i, e, same, idle) =
    let j : Instance = record i {
      phase = busy;
      worked = true;
      remove_reason = no_reason;
      cleanup_in_flight = false;
      cleanup_attempts = 0;
      cleanup_retry_at = 0;
    } in
    (
      j,
      rw (e, restore_busy_at) (rw ((eq_iff i.id id).1 same, idle)),
      find-put_self s name i j e,
      refl,
    )

work_success-instances :
    (c : Controller) (a : Attempt) (now : ℕ) → (record_work_success c a now).instances ≡ c.instances
unfolding record_work_success
work_success-instances c a now = ground arith

restored-keep :
    (c : Controller) (name : String) (now : ℕ) (r : Instances × Bool)
    → r.1 ≡ true
    → ((restored c name now r).1 ≡ keep) × ((restored c name now r).0.instances ≡ r.0)
restored-keep c name now (s, true) h = (refl, work_success-instances _ _ now)
restored-keep c name now (s, false) h = absurd (ground arith)

-- A runner that looked idle when the cleanup asked GitHub, and still does when GitHub answers that
-- it runs a job, is kept: it is busy again, and nothing is destroyed.
deregister-keep :
    (c : Controller) (name id : String) (runner now : ℕ) (meanwhile : Controller → Controller)
    → deregistration c.instances name id ≡ some runner
    → 0 < runner
    → LooksIdle (meanwhile c).instances name id
    → let r = deregister c name id job_running meanwhile now in
      (r.1 ≡ keep)
      × (destroys r.2 ≡ false)
      × ((j : Instance) × (find r.0.instances name ≡ some j) × (j.phase ≡ busy))
unfolding deregister
deregister-keep c name id runner now meanwhile e pos h =
    let (j, done, there, b) = restore_busy_lem (meanwhile c).instances name id h in
    let known : (runner == 0) ≡ false = ground arith in
    let (kept, same) =
      restored-keep (meanwhile c) name now (restore_busy (meanwhile c).instances name id)
        (ap (λ (r : Instances × Bool). r.1) done) in
    rw (e, deregister_as)
      (rw known (
        kept,
        refl,
        (
          j,
          ap (λ (s : Instances). find s name) (same ∙ ap (λ (r : Instances × Bool). r.0) done)
              ∙ there,
          b,
        ),
      ))
