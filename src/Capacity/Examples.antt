-- ===== src/Capacity/Examples.antt =====
-- Two scale sets that share two host slots.
use runscaler.Base.{List, ◌≡◌, refl, ◌⊎◌, true, false, some, [], ◌∷◌, arith, get_elem?, All}
use runscaler.Base.Assoc.{lookup, modify}
use runscaler.Base.Int.{pos}
use runscaler.Capacity.{
  Broker, Waiter, new_broker, register, registered, acquire, release, dispatch, dispatch_loop,
  compact, choose, next_waiter, eligible, grant, find_lease, mark_released, reserved_for_others,
  below_minimum, surplus_available, leased,
}
use runscaler.Capacity.Reach.{
  acquires, registers, calls, Run, idle, after, Reach, here, next, Reach-Inv,
}
use runscaler.Capacity.Counting.{Inv}
use runscaler.Capacity.Reservation.{Reserved}
use runscaler.Capacity.Numbering.{marked, numbered}
use runscaler.Capacity.Wiring.{
  ScaleSet, runners_are_valid, validate_concurrent, effective_concurrent, register_all,
  shared_broker,
}
use runscaler.Capacity.Guarantee.{minimum_guaranteed}
use runscaler.Capacity.Leases.{release_twice}
use runscaler.Capacity.Fifo.{choose_fifo, NoMinimum, NoSurplus, take}
use runscaler.Capacity.Dispatch.{dispatch-Idle, Idle}

-- "a" is promised one runner, "b" none.
abbrev one_set : Broker
one_set = registered (new_broker (pos 2)) "a" (pos 1)

abbrev two_sets : Broker
two_sets = registered one_set "b" (pos 0)

two_sets-Reach : Reach (new_broker (pos 2)) two_sets
unfolding new_broker register lookup
two_sets-Reach =
    next (next here (registers (new_broker (pos 2)) one_set "a" (pos 1) refl))
      (registers one_set two_sets "b" (pos 0) refl)

two_sets-Reserved : Reserved two_sets
unfolding new_broker
two_sets-Reserved h = omega arith

no_waiters : two_sets.waiters ≡ []
unfolding new_broker
no_waiters = refl

-- "b" holds the surplus slot and waits for another.
abbrev held : Broker
held = (acquire two_sets false (some "b")).0

abbrev crowded : Broker
crowded = (acquire held false (some "b")).0

crowded-Run : Run two_sets crowded
unfolding new_broker acquire dispatch dispatch_loop compact choose next_waiter eligible grant
    find_lease surplus_available reserved_for_others lookup modify
crowded-Run = after (after idle (acquires two_sets false "b" refl)) (acquires held false "b" refl)

below : below_minimum crowded "a" ≡ true
unfolding new_broker acquire dispatch dispatch_loop compact choose next_waiter eligible grant
    find_lease surplus_available reserved_for_others lookup modify
below = refl

minimum_guaranteed_example : (acquire crowded false (some "a")).1 ≡ leased crowded.next_ticket
minimum_guaranteed_example =
    minimum_guaranteed (pos 2) two_sets crowded "a" two_sets-Reach no_waiters two_sets-Reserved
      crowded-Run below

crowded-Reach : Reach (new_broker (pos 2)) crowded
unfolding new_broker acquire dispatch dispatch_loop compact choose next_waiter eligible grant
    find_lease surplus_available reserved_for_others lookup modify
crowded-Reach =
    next (next two_sets-Reach (calls (acquires two_sets false "b" refl)))
      (calls (acquires held false "b" refl))

Reach-Inv_example : Inv crowded
Reach-Inv_example = Reach-Inv (pos 2) crowded-Reach

-- The lease of ticket 0 goes back, and "a" takes a slot.
abbrev freed : Broker
freed = release crowded 0

first_lease :
    find_lease 0 crowded.leases ≡ some (record { ticket = 0; group = "b"; released = false })
unfolding new_broker acquire dispatch dispatch_loop compact choose next_waiter eligible grant
    find_lease surplus_available reserved_for_others lookup modify
first_lease = refl

abbrev later : Broker
later = (acquire freed false (some "a")).0

later-Reach : Reach freed later
unfolding release mark_released new_broker acquire dispatch dispatch_loop compact choose next_waiter
    eligible grant find_lease surplus_available reserved_for_others lookup modify
later-Reach = next here (calls (acquires freed false "a" refl))

release_twice_example : release later 0 ≡ later
release_twice_example =
    release_twice crowded later 0 (record { ticket = 0; group = "b"; released = false }) first_lease
      later-Reach

dispatch-Idle_example :
    Idle (dispatch crowded) × All (λ w. w.cancelled ≡ false) (dispatch crowded).waiters
dispatch-Idle_example = dispatch-Idle crowded

-- The queue before a dispatch: "b" is first, but "a" lacks its minimum.
abbrev queued : Broker
queued = record two_sets {
  in_use = 1;
  waiters =
      record { ticket = 0; group = "b"; cancelled = false }
      ∷ record { ticket = 1; group = "a"; cancelled = false }
      ∷ [];
}

minimum_first : choose queued ≡ some 1
unfolding new_broker choose next_waiter eligible surplus_available reserved_for_others lookup
minimum_first = refl

choose_fifo_example :
    (w : Waiter) × (get_elem? queued.waiters 1 ≡ some w)
    × (w.cancelled ≡ false)
    × (((below_minimum queued w.group ≡ true) × All (NoMinimum queued) (take 1 queued.waiters))
        ⊎ ((surplus_available queued w.group ≡ true)
            × All (NoMinimum queued) queued.waiters
            × All (NoSurplus queued) (take 1 queued.waiters)))
choose_fifo_example = choose_fifo queued 1 minimum_first

-- Two configured scale sets that share two slots.
abbrev configured : List ScaleSet
configured =
    record { name = "linux"; min_runners = 1; max_runners = 2 }
    ∷ record { name = "mac"; min_runners = 0; max_runners = 2 }
    ∷ []

fits : validate_concurrent (pos 2) configured ≡ true
unfolding validate_concurrent
fits = refl

ones : runners_are_valid (record { name = "linux"; min_runners = 1; max_runners = 2 }) ≡ true
unfolding runners_are_valid
ones = refl

twos : runners_are_valid (record { name = "mac"; min_runners = 0; max_runners = 2 }) ≡ true
unfolding runners_are_valid
twos = refl

abbrev set_up : Broker
set_up = registered (registered (new_broker (pos 2)) (marked 0) (pos 1)) (marked 1) (pos 0)

set_up-configured : shared_broker numbered (pos 2) configured ≡ some set_up
unfolding shared_broker register_all register new_broker effective_concurrent lookup
set_up-configured = refl

-- The second scale set takes a slot.
abbrev busy : Broker
busy = (acquire set_up false (some (marked 1))).0

busy-Run : Run set_up busy
unfolding new_broker acquire dispatch dispatch_loop compact choose next_waiter eligible grant
    find_lease surplus_available reserved_for_others lookup modify
busy-Run = after idle (acquires set_up false (marked 1) refl)

first-below : below_minimum busy (marked 0) ≡ true
unfolding new_broker acquire dispatch dispatch_loop compact choose next_waiter eligible grant
    find_lease surplus_available reserved_for_others lookup modify
first-below = refl
