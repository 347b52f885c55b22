-- ===== src/Instances/Effect/Starting.antt =====
-- The calls of internal/controller/state.go while a runner starts.
use runscaler.Base.{
  ℕ, refl, inl, inr, String, str_eq, ◌||◌, not, some, arith, Bool-cases, Option-cases,
}
use runscaler.Instances.{Instances, Failure, is_provisioning, is_failure, find}
use runscaler.Instances.Change.{Change}
use runscaler.Instances.Ops.{
  reserve, fail_provision, fail_provision_at, mark_ready, mark_ready_at, mark_provisioned,
  mark_provisioned_at, readiness_result, readiness_result_at,
}
use runscaler.Instances.Effect.Common.{
  keeping, taking, dropping, Shape, same, deleted, added, put-Shape,
}

module _ (s : Instances) where
  pub reserve-Shape :
      (k : String) (lease : ℕ) → Shape taking s.entries (reserve s k lease).0.entries
  unfolding reserve
  reserve-Shape k lease = elim (Option-cases (find s k)) [
    | inr (i, e) ↦ rw e same
    | inl e ↦ rw e (added k lease refl e)
  ]

  pub fail_provision-Shape : (k : String) → Shape dropping s.entries (fail_provision s k).entries
  unfolding fail_provision
  fail_provision-Shape k = elim (Option-cases (find s k)) [
    | inl e ↦ rw (e, fail_provision_at) same
    | inr (i, e) ↦
        rw (e, fail_provision_at)
          (elim (Bool-cases (str_eq i.id "")) [
            | inl fresh ↦ rw fresh (deleted k i refl e)
            | inr ready ↦ rw ready same
          ])
  ]

  pub mark_ready-Shape :
      (k id : String) (r : ℕ) → Shape keeping s.entries (mark_ready s k id r).0.entries
  unfolding mark_ready
  mark_ready-Shape k id r = elim (Option-cases (find s k)) [
    | inl e ↦ rw (e, mark_ready_at) same
    | inr (i, e) ↦ rw (e, mark_ready_at) (put-Shape s k i _ e (Change.readies id r))
  ]

  pub mark_provisioned-Shape :
      (k id : String) (r c : ℕ) → Shape keeping s.entries (mark_provisioned s k id r c).0.entries
  unfolding mark_provisioned
  mark_provisioned-Shape k id r c = elim (Option-cases (find s k)) [
    | inl e ↦ rw (e, mark_provisioned_at) same
    | inr (i, e) ↦
        rw (e, mark_provisioned_at)
          (elim (Bool-cases (is_provisioning i.phase)) [
            | inl p ↦ rw p (put-Shape s k i _ e (Change.binds id r (some c)))
            | inr p ↦ rw p (put-Shape s k i _ e (Change.binds id r i.readiness_cancel))
          ])
  ]

  pub readiness_result-Shape :
      (k id : String) (why : Failure)
      → Shape keeping s.entries (readiness_result s k id why).0.entries
  unfolding readiness_result
  readiness_result-Shape k id why = elim (Option-cases (find s k)) [
    | inl e ↦ rw (e, readiness_result_at) same
    | inr (i, e) ↦
        rw (e, readiness_result_at)
          (elim (Bool-cases (not (str_eq i.id id) || not (is_provisioning i.phase))) [
            | inl other ↦ rw other same
            | inr this ↦ rw this (elim (Bool-cases (is_failure why)) [
              | inl failed ↦ rw failed (put-Shape s k i _ e (Change.fails why (ground arith)))
              | inr passed ↦ rw passed (put-Shape s k i _ e (Change.passes (ground arith)))
            ])
          ])
  ]
