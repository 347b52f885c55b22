-- ===== src/Instances/Effect/Working.antt =====
-- The calls of internal/controller/state.go about jobs, exits and notes.
use runscaler.Base.{
  ◌≡◌, inl, inr, String, str_eq, true, ◌&&◌, ◌||◌, not, arith, Bool-cases, Option-cases,
}
use runscaler.Instances.{
  Instances, Reason, JobRef, Attempt, is_removing, is_readiness, is_exited, is_unassigned_removal,
  has_reason, find, put,
}
use runscaler.Instances.Change.{Change}
use runscaler.Instances.Ops.{
  set_attempt, set_jit, claim_diagnostics, claim_diagnostics_at, mark_exited, mark_exited_at,
  mark_busy, mark_busy_at, mark_busy_as, busy_phase, restore_busy, restore_busy_at, mark_done,
  mark_done_at, refuses_done,
}
use runscaler.Instances.Effect.Common.{keeping, Shape, same, modified, put-Shape, cancel-Shape}

module _ (s : Instances) where
  pub set_attempt-Shape :
      (k : String) (a : Attempt) → Shape keeping s.entries (set_attempt s k a).entries
  unfolding set_attempt
  set_attempt-Shape k a = modified k _ (λ i e. Change.notes_attempt a)

  pub set_jit-Shape : (k jit : String) → Shape keeping s.entries (set_jit s k jit).entries
  unfolding set_jit
  set_jit-Shape k jit = modified k _ (λ i e. Change.notes_jit jit)

  pub claim_diagnostics-Shape :
      (k id : String) → Shape keeping s.entries (claim_diagnostics s k id).0.entries
  unfolding claim_diagnostics
  claim_diagnostics-Shape k id = elim (Option-cases (find s k)) [
    | inl e ↦ rw (e, claim_diagnostics_at) same
    | inr (i, e) ↦
        rw (e, claim_diagnostics_at)
          (elim (Bool-cases (
            not (str_eq i.id id)
            || i.diagnostics_collected
            || not (is_readiness i.remove_reason || is_exited i.remove_reason))) [
              | inl no_claim ↦ rw no_claim same
              | inr claim ↦ rw claim (put-Shape s k i _ e (Change.collects (ground arith)))
            ])
  ]

  pub mark_exited-Shape : (k id : String) → Shape keeping s.entries (mark_exited s k id).0.entries
  unfolding mark_exited
  mark_exited-Shape k id = elim (Option-cases (find s k)) [
    | inl e ↦ rw (e, mark_exited_at) same
    | inr (i, e) ↦
        rw (e, mark_exited_at)
          (elim (Bool-cases
            (not (str_eq i.id id) || (is_removing i.phase && not (is_readiness i.remove_reason)))) [
              | inl other ↦ rw other same
              | inr this ↦ rw this (
                  cancel-Shape s i.readiness_cancel (put s k _)
                    (put-Shape s k i _ e (Change.exits (ground arith))))
            ])
  ]

  pub mark_busy-Shape :
      (k : String) (job : JobRef) → Shape keeping s.entries (mark_busy s k job).0.entries
  unfolding mark_busy
  mark_busy-Shape k job = elim (Option-cases (find s k)) [
    | inl e ↦ rw (e, mark_busy_at) same
    | inr (i, e) ↦
        rw (e, mark_busy_at)
          (elim (Option-cases (busy_phase i)) [
            | inl refused ↦ rw (refused, mark_busy_as) same
            | inr (p, q) ↦
                rw (q, mark_busy_as)
                  (cancel-Shape s i.readiness_cancel (put s k _)
                    (put-Shape s k i _ e (Change.works p job q)))
          ])
  ]

  pub restore_busy-Shape : (k id : String) → Shape keeping s.entries (restore_busy s k id).0.entries
  unfolding restore_busy
  restore_busy-Shape k id = elim (Option-cases (find s k)) [
    | inl e ↦ rw (e, restore_busy_at) same
    | inr (i, e) ↦
        rw (e, restore_busy_at)
          (elim (Bool-cases (not (str_eq i.id id) || not (is_unassigned_removal i))) [
            | inl other ↦ rw other same
            | inr this ↦ rw this (put-Shape s k i _ e (Change.restores (ground arith)))
          ])
  ]

  pub mark_done-Shape :
      (k : String) (why : Reason) (given : has_reason why ≡ true) (result : String)
      → Shape keeping s.entries (mark_done s k why result).0.entries
  unfolding mark_done
  mark_done-Shape k why given result = elim (Option-cases (find s k)) [
    | inl e ↦ rw (e, mark_done_at) same
    | inr (i, e) ↦
        rw (e, mark_done_at)
          (elim (Bool-cases (refuses_done why i)) [
            | inl refused ↦ rw refused same
            | inr done ↦ rw done (
                cancel-Shape s i.readiness_cancel (put s k _)
                  (put-Shape s k i _ e (Change.ends why _ given done)))
          ])
  ]
