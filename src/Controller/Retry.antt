-- ===== src/Controller/Retry.antt =====
-- internal/controller/retry.go, and `recordStartAttempt` of runtime.go.
use runscaler.Base.{
  ℕ, ◌+◌, Bool, true, false, ◌&&◌, ◌||◌, none, some, ltb, leb, ◌==◌, if◌then◌else◌,
}
use runscaler.Backoff.{Float, delay}
use runscaler.Instances.{
  Failure, no_failure, readiness_timeout, readiness_unavailable, exited_before_ready, Attempt,
}
use runscaler.Instances.Ops.{has_work, counts}
use runscaler.Controller.{Controller, no_retry, backing_off, cooling_down}

unfoldable pub clear_retry : Controller → Controller
clear_retry c =
    let r = c.runtime in
    record c {
      retry_timer = none;
      runtime = record r { next_retry_at = 0; retry_state = no_retry };
    }

-- The failures that work of the same attempt disproves.
abbrev pub disprovable : Failure → Bool
disprovable readiness_timeout = true
disprovable readiness_unavailable = true
disprovable exited_before_ready = true
disprovable _ = false

module _ (fl : Float) where
  open fl use {F}

  -- The delay that `recordStartFailureFor` sets after `n` failures in a row.
  abbrev pub retry_delay : Controller → ℕ → F → ℕ
  retry_delay c n sample =
      let r = c.retry_config in delay fl n r.initial r.maximum r.cooldown r.cooldown_after sample

  abbrev pub record_failure : Controller → Failure → Attempt → F → ℕ → Controller
  record_failure c why attempt sample now =
      let r = c.runtime in
      let n = r.consecutive_start_failures + 1 in
      let next = now + retry_delay c n sample in
      record c {
        failure_generation = c.failure_generation + 1;
        last_failure_attempt = attempt.id;
        retry_timer = some next;
        runtime = record r {
          start_failures = r.start_failures + 1;
          consecutive_start_failures = n;
          failure_reason = why;
          next_retry_at = next;
          retry_state = if leb c.retry_config.cooldown_after n then cooling_down else backing_off;
        };
      }

  -- `ended`: the context given has ended.
  unfoldable pub record_start_failure : Controller → Bool → Failure → Attempt → F → ℕ → Controller
  record_start_failure c ended why attempt sample now =
      if ended || c.draining || (disprovable why && has_work c.instances attempt)
      then c
      else record_failure c why attempt sample now

abbrev pub forget_failures : Controller → Controller
forget_failures c =
    let r = c.runtime in
    clear_retry (record c {
      runtime = record r { consecutive_start_failures = 0; failure_reason = no_failure };
    })

abbrev pub note_success : Controller → ℕ → Controller
note_success c now =
    let r = c.runtime in record c { runtime = record r { last_successful_start = now } }

unfoldable pub record_start_success : Controller → Attempt → ℕ → Controller
unfolding clear_retry
record_start_success c attempt now =
    if attempt.generation == c.failure_generation
    then forget_failures (note_success c now)
    else note_success c now

unfoldable pub record_work_success : Controller → Attempt → ℕ → Controller
unfolding clear_retry
record_work_success c attempt now =
    if attempt.generation == c.failure_generation
      || (c.failure_generation == attempt.generation + 1 && c.last_failure_attempt == attempt.id)
    then forget_failures (note_success c now)
    else note_success c now

unfoldable pub retry_allowed : Controller → ℕ → Controller × Bool
unfolding clear_retry
retry_allowed c now = if ltb now c.runtime.next_retry_at then (c, false) else (clear_retry c, true)

unfoldable pub clear_satisfied_retry : Controller → ℕ → Controller
unfolding clear_retry counts
clear_satisfied_retry c target =
    let (idle, busy) = counts c.instances in if ltb (idle + busy) target then c else clear_retry c

unfoldable pub record_start_attempt : Controller → ℕ → Controller × Attempt
record_start_attempt c started =
    let r = c.runtime in
    let n = r.start_attempts + 1 in
    (
      record c { runtime = record r { start_attempts = n; last_start_attempt = started } },
      record { id = n; generation = c.failure_generation },
    )
