-- ===== src/Controller/Drain.antt =====
-- `Drain`, `stopWork` and `Shutdown` of internal/controller/controller.go. The ticker of `Drain` is
-- an argument: each pass is given the time, and what happened since.
use runscaler.Base.{
  String, str_eq, Bool, true, ◌&&◌, Option, none, some, List, [], ◌∷◌, ◌++◌, ◌==◌, if◌then◌else◌,
}
use runscaler.Instances.{Instances, Instance}
use runscaler.Instances.Ops.{lifecycle_counts}
use runscaler.Instances.Ops.Claims.{claim_removal, idle_for_removal, detach_all}
use runscaler.Controller.{Controller, Call, remove_instance, release_lease}
use runscaler.Controller.Retry.{clear_retry}
use runscaler.Controller.Demand.{with_instances}
use runscaler.Controller.Cleanup.{Answers, remove_claimed}

-- `stopOnce`: only the first call does something.
unfoldable pub stop_work : Controller → Controller
stop_work c = if c.work_ended then c else clear_retry (record c { work_ended = true })

-- Up to the wait for the workers.
unfoldable pub begin_drain : Controller → Controller
begin_drain c = stop_work (record c { draining = true })

unfoldable pub drain_idle : Controller → Controller
drain_idle c = with_instances c (idle_for_removal c.instances).0

-- One turn of the inner loop: the visiting order, the answers, and the time.
abbrev pub Turn : Type 0
Turn = List String × Answers

abbrev pub turned :
    Controller
    → Answers
    → List Call
    → Option (Instances × String × String)
    → (Controller → List Call → Controller × List Call)
    → Controller × List Call
turned c a calls none next = (c, calls)
turned c a calls (some (s, name, id)) next =
    let (c', more) = remove_claimed (with_instances c s) name id a in next c' (calls ++ more)

-- The inner loop of `Drain`, until nothing is left to claim or the turns given are used up.
unfoldable pub drain_turns : Controller → List Turn → List Call → Controller × List Call
drain_turns c [] calls = (c, calls)
drain_turns c ((names, a) ∷ turns) calls =
    turned c a calls (claim_removal c.instances names a.now)
      (λ c' calls'. drain_turns c' turns calls')

-- `Drain` returns nil.
unfoldable pub drain_complete : Controller → Bool
drain_complete c =
    let (_, _, busy, removing) = lifecycle_counts c.instances in busy == 0 && removing == 0

abbrev pub release_all : List (String × Instance) → Controller → Controller
release_all [] c = c
release_all ((_, i) ∷ m) c = release_all m (release_lease c i.lease)

abbrev pub removals : List (String × Instance) → List Call
removals [] = []
removals ((_, i) ∷ m) = if str_eq i.id "" then removals m else remove_instance i.id ∷ removals m

-- `Shutdown`; `waiting`: what the workers do until they have ended, or the wait is given up. Every runner leaves the state, and every lease goes back, whatever the provider says.
unfoldable pub shutdown : Controller → (Controller → Controller) → Controller × List Call
shutdown c waiting =
    let c' = waiting (begin_drain c) in
    let (s, m) = detach_all c'.instances in (release_all m (with_instances c' s), removals m)
