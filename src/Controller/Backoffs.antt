-- ===== src/Controller/Backoffs.antt =====
-- Retries of failed starts (internal/controller/retry.go): how long they wait, and which failures a
-- success erases.
use runscaler.Base.{
  ℕ, ◌+◌, ◌-◌, ◌*◌, ◌/◌, ◌^◌, ◌≤◌, ◌<◌, min, ◌⊎◌, inl, inr, ◌≡◌, Bool, true, false, ◌&&◌, ◌||◌,
  arith, leb,
}
use runscaler.Backoff.{Float, retry_is_valid}
use runscaler.Backoff.Bounds.{delay_lem}
use runscaler.Instances.{Failure, Attempt}
use runscaler.Instances.Ops.{has_work}
use runscaler.Controller.{Controller}
use runscaler.Controller.Retry.{
  disprovable, record_start_failure, record_work_success, record_start_attempt, retry_allowed,
  retry_delay,
}

-- A failed start that no work disproves, while the controller serves.
abbrev pub Counts : Controller → Bool → Failure → Attempt → Type 0
Counts c ended why a = (ended || c.draining || (disprovable why && has_work c.instances a)) ≡ false

-- The controller after the starts of two attempts, and the second of them.
abbrev pub second_attempt : Controller → ℕ → ℕ → Controller × Attempt
second_attempt c started started' = record_start_attempt (record_start_attempt c started).0 started'

module _ (fl : Float) where
  open fl use {F}

  -- With a valid retry configuration: the n-th failure in a row is counted, and another start is
  -- allowed exactly from a delay after it on. Below the threshold the delay lies in the upper half
  -- of the initial delay doubled n - 1 times and capped; from the threshold on it is the cooldown.
  failure_waits :
      (c : Controller) (ended : Bool) (why : Failure) (a : Attempt) (x : F) (now : ℕ)
      → retry_is_valid c.retry_config ≡ true
      → c.retry_config.maximum ≤ 2 ^ 53
      → Counts c ended why a
      → let c' = record_start_failure fl c ended why a x now in
        let n = c.runtime.consecutive_start_failures + 1 in
        let d = retry_delay fl c n x in
        let base = min c.retry_config.maximum (c.retry_config.initial * 2 ^ (n - 1)) in
        (c'.runtime.consecutive_start_failures ≡ n)
        × ((later : ℕ) → (retry_allowed c' later).1 ≡ leb (now + d) later)
        × (((c.retry_config.cooldown_after ≤ n) × (d ≡ c.retry_config.cooldown))
            ⊎ ((n < c.retry_config.cooldown_after) × (base / 2 ≤ d) × (d ≤ base)))
  unfolding record_start_failure retry_allowed
  failure_waits c ended why a x now ok h counts =
      let n = c.runtime.consecutive_start_failures + 1 in
      (
        rw counts,
        λ later. rw counts (ground arith),
        elim (delay_lem fl c.retry_config n x ok h) [
          | inl none_yet ↦ absurd (omega (arith, none_yet.0))
          | inr (inl cooled) ↦ inl cooled
          | inr (inr (_, below, low, high)) ↦ inr (below, low, high)
        ],
      )

  -- Work of an attempt disproves that attempt's own failure: after it no failure is counted and no
  -- retry is waited for.
  own_failure_erased :
      (c : Controller) (ended : Bool) (why : Failure) (x : F) (started now later : ℕ)
      → Counts (record_start_attempt c started).0 ended why (record_start_attempt c started).1
      → let (c', a) = record_start_attempt c started in
        let r = record_work_success (record_start_failure fl c' ended why a x now) a later in
        (r.runtime.consecutive_start_failures ≡ 0) × (r.runtime.next_retry_at ≡ 0)
  unfolding record_start_failure record_work_success record_start_attempt
  own_failure_erased c ended why x started now later counts = ground arith

  -- But not the failure of an attempt that overlaps it: where `a` starts, then `b` starts and fails,
  -- work of `a` leaves that failure counted and its retry deadline in place.
  overlapping_failure_kept :
      (c : Controller) (ended : Bool) (why : Failure) (x : F) (started started' now later : ℕ)
      → Counts (second_attempt c started started').0 ended why (second_attempt c started started').1
      → let (_, a) = record_start_attempt c started in
        let (c', b) = second_attempt c started started' in
        let failed = record_start_failure fl c' ended why b x now in
        let r = record_work_success failed a later in
        (r.runtime.consecutive_start_failures ≡ c.runtime.consecutive_start_failures + 1)
        × (r.runtime.next_retry_at ≡ failed.runtime.next_retry_at)
  unfolding record_start_failure record_work_success record_start_attempt
  overlapping_failure_kept c ended why x started started' now later counts = ground arith
