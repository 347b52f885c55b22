-- ===== src/Controller/Reconcile.antt =====
-- The reconciler of internal/controller/controller.go: `reconcileOne`, which blocks for capacity in
-- the middle, is `reconcile_head` up to the wait and `reconcile_tail` from the lease on;
-- `acquireCapacity` is `begin_wait` and `end_wait` around the broker's wait. Each of the two is one
-- step here, though the source takes several locks one after the other in it: what others do between
-- these is left out.
use runscaler.Base.{
  ℕ, String, Bool, true, false, ◌||◌, not, Option, none, some, List, [], ◌∷◌, ltb, leb,
  if◌then◌else◌,
}
use runscaler.Backoff.{Float}
use runscaler.Instances.{Instances}
use runscaler.Instances.Ops.{count}
use runscaler.Instances.Ops.Claims.{claim_removal, mark_idle_above_target}
use runscaler.Controller.{
  Controller, Call, clean_up, scale_target, set_capacity_waiting, release_lease,
}
use runscaler.Controller.Retry.{retry_allowed, clear_satisfied_retry}
use runscaler.Controller.Demand.{with_instances}
use runscaler.Controller.Start.{Starting, Started, running, not_started, start_with_lease}

-- What a round decides: to sleep, to go on after a cleanup or a scale-down, or to ask for a lease.
pub data Round : Type 0 where
  sleep again wants_lease : Round

abbrev pub scaled : Controller → ℕ → ℕ → Instances × Bool → Controller × Round × List Call
scaled c target now (s, true) = (with_instances c s, again, [])
scaled c target now (s, false) =
    if leb target (count c.instances)
    then (clear_satisfied_retry c target, sleep, [])
    else let (c', allowed) = retry_allowed c now in (c', if allowed then wants_lease else sleep, [])

abbrev pub scale_round : Controller → List String → ℕ → Controller × Round × List Call
scale_round c names now =
    let (target, can_scale) = scale_target c in
    if can_scale
    then scaled c target now (
        if ltb target (count c.instances)
        then mark_idle_above_target c.instances names target
        else (c.instances, false))
    else (c, sleep, [])

abbrev pub claimed_round :
    Controller
    → List String
    → ℕ
    → Option (Instances × String × String)
    → Controller × Round × List Call
claimed_round c names now (some (s, name, id)) = (with_instances c s, again, clean_up name id ∷ [])
claimed_round c names now none = scale_round c names now

-- `names` and `names'` are the orders in which the two loops over the map visit the runners.
unfoldable pub reconcile_head :
    Controller → List String → List String → ℕ → Controller × Round × List Call
reconcile_head c names names' now =
    if c.draining || c.work_ended
    then (c, sleep, [])
    else claimed_round c names' now (claim_removal c.instances names now)

-- Before the broker's wait; `false` where a signal is pending already.
unfoldable pub begin_wait : Controller → Controller × Bool
begin_wait c =
    if c.signalled
    then (record c { acquiring = none }, false)
    else (set_capacity_waiting (record c { acquiring = some false }) true, true)

-- After it, with or without a lease.
unfoldable pub end_wait : Controller → Controller
end_wait c = set_capacity_waiting (record c { acquiring = none }) false

-- The loop takes the wakeup out of the channel.
unfoldable pub take_signal : Controller → Controller
take_signal c = record c { signalled = false }

module _ (fl : Float) where
  abbrev pub tail_started : Controller × Started × List Call → Controller × Bool × List Call
  tail_started (c, running, calls) = (c, true, calls)
  tail_started (c, not_started, calls) = (c, false, calls)

  abbrev pub tail_allowed : ℕ → Starting fl → Controller × Bool → Controller × Bool × List Call
  tail_allowed lease e (c, true) = tail_started (start_with_lease fl c lease e)
  tail_allowed lease e (c, false) = (release_lease c lease, false, [])

  abbrev pub tail_checked : Controller → ℕ → Bool → ℕ → Starting fl → Controller × Bool × List Call
  tail_checked c lease can_scale target e =
      if c.draining || not can_scale || leb target (count c.instances)
      then (release_lease c lease, false, [])
      else tail_allowed lease e (retry_allowed c e.now)

  -- Demand may have changed during the wait. The Boolean asks for another round.
  unfoldable pub reconcile_tail : Controller → ℕ → Starting fl → Controller × Bool × List Call
  reconcile_tail c lease e =
      let (target, can_scale) = scale_target c in tail_checked c lease can_scale target e
