-- ===== src/Instances/Ops.antt =====
-- The methods of `instanceState` (internal/controller/state.go). A method whose instance may be
-- missing is a helper on the result of the lookup; a Boolean or `none` is the refusal.
pub mod Claims
use runscaler.Base.{
  ℕ, zero, suc, ◌+◌, ◌-◌, ◌*◌, min, String, str_eq, Bool, true, false, ◌&&◌, ◌||◌, not, Option,
  none, some, List, [], ◌∷◌, ltb, leb, ◌==◌, if◌then◌else◌, is_some,
}
use runscaler.Base.Assoc.{lookup, modify, delete, add}
use runscaler.Instances.{
  Instances, Instance, Phase, provisioning, idle, busy, removing, Reason, no_reason, job_completed,
  scaled_down, drain, exited, readiness, Failure, no_failure, exited_before_ready,
  exited_unexpectedly, is_provisioning, is_idle, is_busy, is_removing, is_completed, is_readiness,
  is_exited, is_failure, JobRef, Attempt, no_attempt, same_attempt, find, put, cancel, provisioned,
  is_unassigned_removal,
}

unfoldable pub reserve : Instances → String → ℕ → Instances × Bool
reserve s name lease =
    if is_some (find s name)
    then (s, false)
    else (record s { entries = add name (provisioned lease) s.entries }, true)

abbrev pub fail_provision_at : Instances → String → Option Instance → Instances
fail_provision_at s name none = s
fail_provision_at s name (some i) =
    if str_eq i.id "" then record s { entries = delete name s.entries } else s

unfoldable pub fail_provision : Instances → String → Instances
fail_provision s name = fail_provision_at s name (find s name)

-- The results are `removeNow` and `tracked`.
abbrev pub mark_ready_at :
    Instances → String → String → ℕ → Option Instance → Instances × Bool × Bool
mark_ready_at s name id runner_id none = (s, false, false)
mark_ready_at s name id runner_id (some i) = (
  put s name (record i {
    id = id;
    runner_id = runner_id;
    phase = if is_provisioning i.phase then idle else i.phase;
  }),
  is_removing i.phase,
  true,
)

unfoldable pub mark_ready : Instances → String → String → ℕ → Instances × Bool × Bool
mark_ready s name id runner_id = mark_ready_at s name id runner_id (find s name)

abbrev pub mark_provisioned_at :
    Instances → String → String → ℕ → ℕ → Option Instance → Instances × Bool × Bool
mark_provisioned_at s name id runner_id c none = (s, false, false)
mark_provisioned_at s name id runner_id c (some i) =
    if is_provisioning i.phase
    then (
      put s name (record i { id = id; runner_id = runner_id; readiness_cancel = some c }),
      false,
      true,
    )
    else (
      cancel (some c) (put s name (record i { id = id; runner_id = runner_id })),
      is_removing i.phase,
      true,
    )

unfoldable pub mark_provisioned : Instances → String → String → ℕ → ℕ → Instances × Bool × Bool
mark_provisioned s name id runner_id c = mark_provisioned_at s name id runner_id c (find s name)

abbrev pub readiness_result_at :
    Instances → String → String → Failure → Option Instance → Instances × Bool
readiness_result_at s name id why none = (s, false)
readiness_result_at s name id why (some i) =
    if not (str_eq i.id id) || not (is_provisioning i.phase) then (s, false) else (
      put s name (
          if is_failure why
          then record i { phase = removing; remove_reason = readiness; diagnostic_reason = why }
          else record i { phase = idle }),
      true,
    )

unfoldable pub readiness_result : Instances → String → String → Failure → Instances × Bool
readiness_result s name id why = readiness_result_at s name id why (find s name)

abbrev pub attempt_at : Option Instance → Attempt
attempt_at none = no_attempt
attempt_at (some i) = i.attempt

unfoldable pub attempt_of : Instances → String → Attempt
attempt_of s name = attempt_at (find s name)

unfoldable pub set_attempt : Instances → String → Attempt → Instances
set_attempt s name a = record s { entries = modify name (λ i. record i { attempt = a }) s.entries }

unfoldable pub set_jit : Instances → String → String → Instances
set_jit s name jit = record s { entries = modify name (λ i. record i { jit = jit }) s.entries }

abbrev pub claim_diagnostics_at :
    Instances → String → String → Option Instance → Instances × Option (Failure × String)
claim_diagnostics_at s name id none = (s, none)
claim_diagnostics_at s name id (some i) =
    if not (str_eq i.id id)
      || i.diagnostics_collected
      || not (is_readiness i.remove_reason || is_exited i.remove_reason)
    then (s, none)
    else (put s name (record i { diagnostics_collected = true }), some (i.diagnostic_reason, i.jit))

unfoldable pub claim_diagnostics :
    Instances → String → String → Instances × Option (Failure × String)
claim_diagnostics s name id = claim_diagnostics_at s name id (find s name)

-- The results are the attempt, `unassigned` and `worked`.
abbrev pub mark_exited_at :
    Instances → String → String → Option Instance → Instances × Option (Attempt × Bool × Bool)
mark_exited_at s name id none = (s, none)
mark_exited_at s name id (some i) =
    if not (str_eq i.id id) || (is_removing i.phase && not (is_readiness i.remove_reason))
    then (s, none)
    else (
      cancel i.readiness_cancel (
          put s name (record i {
            phase = removing;
            remove_reason = exited;
            diagnostic_reason = if i.worked then exited_unexpectedly else exited_before_ready;
          })),
      some (i.attempt, not i.worked && not (is_readiness i.remove_reason), i.worked),
    )

unfoldable pub mark_exited :
    Instances → String → String → Instances × Option (Attempt × Bool × Bool)
mark_exited s name id = mark_exited_at s name id (find s name)

abbrev pub any_work : Attempt → List (String × Instance) → Bool
any_work a [] = false
any_work a ((_, i) ∷ m) =
    (same_attempt i.attempt a && i.worked && not (is_exited i.remove_reason)) || any_work a m

unfoldable pub has_work : Instances → Attempt → Bool
has_work s a = any_work a s.entries

abbrev pub tally : (Instance → Bool) → List (String × Instance) → ℕ
tally test [] = 0
tally test ((_, i) ∷ m) = (if test i then 1 else 0) + tally test m

abbrev pub counts_as_capacity : Instance → Bool
counts_as_capacity i = not (is_removing i.phase) || is_unassigned_removal i

unfoldable pub count : Instances → ℕ
count s = tally counts_as_capacity s.entries

-- Idle, then busy.
unfoldable pub counts : Instances → ℕ × ℕ
counts s = (tally (λ i. is_idle i.phase) s.entries, tally (λ i. is_busy i.phase) s.entries)

unfoldable pub lifecycle_counts : Instances → ℕ × ℕ × ℕ × ℕ
lifecycle_counts s = (
  tally (λ i. is_provisioning i.phase) s.entries,
  tally (λ i. is_idle i.phase) s.entries,
  tally (λ i. is_busy i.phase) s.entries,
  tally (λ i. is_removing i.phase) s.entries,
)

abbrev pub phase_at : Option Instance → Option Phase
phase_at none = none
phase_at (some i) = some i.phase

unfoldable pub phase_of : Instances → String → Option Phase
phase_of s name = phase_at (find s name)

abbrev pub contains_at : String → Option Instance → Bool
contains_at id none = false
contains_at id (some i) =
    str_eq i.id id && (not (is_removing i.phase) || is_readiness i.remove_reason)

unfoldable pub contains : Instances → String → String → Bool
contains s name id = contains_at id (find s name)

-- The phase that the `switch` of `markBusy` sets; `none` is its default case.
unfoldable pub busy_phase : Instance → Option Phase
busy_phase i =
    if is_idle i.phase || is_provisioning i.phase
    then some busy
    else if (is_busy i.phase && str_eq i.job.id "") || is_unassigned_removal i
    then some i.phase
    else none

abbrev pub mark_busy_as : Instances → String → JobRef → Instance → Option Phase → Instances × Bool
mark_busy_as s name job i none = (s, false)
mark_busy_as s name job i (some p) = (
  cancel i.readiness_cancel (put s name (record i { phase = p; job = job; worked = true })),
  true,
)

abbrev pub mark_busy_at : Instances → String → JobRef → Option Instance → Instances × Bool
mark_busy_at s name job none = (s, false)
mark_busy_at s name job (some i) = mark_busy_as s name job i (busy_phase i)

unfoldable pub mark_busy : Instances → String → JobRef → Instances × Bool
mark_busy s name job = mark_busy_at s name job (find s name)

abbrev pub deregistration_at : String → Option Instance → Option ℕ
deregistration_at id none = none
deregistration_at id (some i) =
    if not (str_eq i.id id) || not (is_unassigned_removal i) then none else some i.runner_id

unfoldable pub deregistration : Instances → String → String → Option ℕ
deregistration s name id = deregistration_at id (find s name)

abbrev pub restore_busy_at : Instances → String → String → Option Instance → Instances × Bool
restore_busy_at s name id none = (s, false)
restore_busy_at s name id (some i) =
    if not (str_eq i.id id) || not (is_unassigned_removal i) then (s, false) else (
      put s name (record i {
        phase = busy;
        worked = true;
        remove_reason = no_reason;
        cleanup_in_flight = false;
        cleanup_attempts = 0;
        cleanup_retry_at = 0;
      }),
      true,
    )

unfoldable pub restore_busy : Instances → String → String → Instances × Bool
restore_busy s name id = restore_busy_at s name id (find s name)

-- A runner that is being removed is taken over only by the completion of its job.
unfoldable pub refuses_done : Reason → Instance → Bool
refuses_done why i =
    is_removing i.phase && (not (is_completed why) || not (is_unassigned_removal i))

-- The results are the instance ID and `ready`.
abbrev pub mark_done_at :
    Instances → String → Reason → String → Option Instance → Instances × Option (String × Bool)
mark_done_at s name why result none = (s, none)
mark_done_at s name why result (some i) =
    if refuses_done why i
    then (s, none)
    else let job = i.job in
      (
        cancel i.readiness_cancel (
            put s name (record i {
              phase = removing;
              remove_reason = why;
              job = record job { result = result };
              worked = is_completed why || i.worked;
            })),
        some (i.id, not (str_eq i.id "")),
      )

unfoldable pub mark_done : Instances → String → Reason → String → Instances × Option (String × Bool)
mark_done s name why result = mark_done_at s name why result (find s name)
