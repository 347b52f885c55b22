-- ===== src/Instances/Effect/Leaving.antt =====
-- The calls of internal/controller/state.go about removals.
use runscaler.Base.{
  ℕ, refl, inl, inr, String, str_eq, ◌||◌, not, List, [], ◌∷◌, arith, Bool-cases, Option-cases, leb,
}
use runscaler.Instances.{Instances, is_removing, find}
use runscaler.Instances.Change.{Change}
use runscaler.Instances.Ops.Claims.{
  mark_idle_above_target, remove_first_idle, idle_at, scaled_down_instance, planned, claim_removal,
  claim_at, claimable, retry_removal, retry_removal_at, finish_removal, finish_removal_at,
}
use runscaler.Instances.Step.{claimed}
use runscaler.Instances.Effect.Common.{keeping, dropping, Shape, same, modified, deleted, put-Shape}

module _ (s : Instances) where
  pub remove_first_idle-Shape :
      (names : List String) → Shape keeping s.entries (remove_first_idle s names).0.entries
  unfolding remove_first_idle
  remove_first_idle-Shape [] = same
  remove_first_idle-Shape (k ∷ names) = elim (Bool-cases (idle_at (find s k))) [
    | inl hit ↦ rw hit (modified k scaled_down_instance (λ i e. Change.scales (rw e at hit)))
    | inr miss ↦ rw miss (remove_first_idle-Shape names)
  ]

  pub mark_idle-Shape :
      (names : List String) (target : ℕ)
      → Shape keeping s.entries (mark_idle_above_target s names target).0.entries
  unfolding mark_idle_above_target
  mark_idle-Shape names target = elim (Bool-cases (leb (planned s) target)) [
    | inl few ↦ rw few same
    | inr many ↦ rw many (remove_first_idle-Shape names)
  ]

  pub claim_removal-Shape :
      (names : List String) (now : ℕ)
      → Shape keeping s.entries (claimed s (claim_removal s names now)).entries
  unfolding claim_removal
  claim_removal-Shape [] now = same
  claim_removal-Shape (k ∷ names) now = elim (Option-cases (find s k)) [
    | inl e ↦ rw (e, claim_at) (claim_removal-Shape names now)
    | inr (i, e) ↦
        rw (e, claim_at)
          (elim (Bool-cases (claimable now i)) [
            | inl hit ↦ rw hit (put-Shape s k i _ e (Change.claims now hit))
            | inr miss ↦ rw miss (claim_removal-Shape names now)
          ])
  ]

  pub retry_removal-Shape :
      (k id : String) (now : ℕ) → Shape keeping s.entries (retry_removal s k id now).0.entries
  unfolding retry_removal
  retry_removal-Shape k id now = elim (Option-cases (find s k)) [
    | inl e ↦ rw (e, retry_removal_at) same
    | inr (i, e) ↦
        rw (e, retry_removal_at)
          (elim (Bool-cases
            (not (is_removing i.phase) || not (str_eq i.id id) || not i.cleanup_in_flight)) [
              | inl other ↦ rw other same
              | inr this ↦
                  rw this (put-Shape s k i _ e (Change.retries now (ground arith) (ground arith)))
            ])
  ]

  pub finish_removal-Shape :
      (k id : String) → Shape dropping s.entries (finish_removal s k id).0.entries
  unfolding finish_removal
  finish_removal-Shape k id = elim (Option-cases (find s k)) [
    | inl e ↦ rw (e, finish_removal_at) same
    | inr (i, e) ↦
        rw (e, finish_removal_at)
          (elim (Bool-cases (not (is_removing i.phase) || not (str_eq i.id id))) [
            | inl other ↦ rw other same
            | inr this ↦ rw this (deleted k i refl e)
          ])
  ]
