-- ===== src/Controller/Wakeups.antt =====
-- Wakeups around the wait for capacity (`signalReconcile` and `acquireCapacity` of
-- internal/controller/controller.go).
use runscaler.Base.{◌≡◌, refl, ◌⊎◌, inl, inr, true, false, some, Bool-cases}
use runscaler.Controller.{Controller, signal_reconcile, set_capacity_waiting}
use runscaler.Controller.Reconcile.{begin_wait}

-- While serving, no wakeup is slept through: after a signal the wait for capacity is not begun; and
-- a signal that comes once it may have begun finds either that it was not begun for an earlier
-- signal, or cancels it. The wakeup itself stays pending in every case.
signal-begin_wait :
    (c : Controller)
    → c.draining ≡ false
    → let waiting = begin_wait c in
      let woken = signal_reconcile waiting.0 in
      ((begin_wait (signal_reconcile c)).1 ≡ false)
      × ((begin_wait (signal_reconcile c)).0.signalled ≡ true)
      × (woken.signalled ≡ true)
      × (((waiting.1 ≡ false) × (c.signalled ≡ true))
          ⊎ ((waiting.1 ≡ true) × (woken.acquiring ≡ some true)))
unfolding begin_wait signal_reconcile set_capacity_waiting
signal-begin_wait c serving = elim (Bool-cases c.signalled) [
  | inl e ↦ rw (serving, e) (refl, refl, refl, inl (refl, refl))
  | inr e ↦ rw (serving, e) (refl, refl, refl, inr (refl, refl))
]
