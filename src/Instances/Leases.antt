-- ===== src/Instances/Leases.antt =====
-- The leases that the runners of internal/controller/state.go hold.
use runscaler.Base.{
  ℕ, ◌+◌, ◌≡◌, inl, inr, String, str_eq, ◌||◌, not, Option, none, some, List, [], ◌∷◌, arith, ◌==◌,
  if◌then◌else◌, Bool-cases, Option-cases,
}
use runscaler.Base.Assoc.{lookup, delete, add}
use runscaler.Instances.{Instances, Instance, find, is_removing, provisioned}
use runscaler.Instances.Ops.Claims.{finish_removal, finish_removal_at, Removed}
use runscaler.Instances.Step.{Op, apply}
use runscaler.Instances.Effect.{apply-Shape, kind_of}
use runscaler.Instances.Effect.Common.{keeping, held, Shape-held}

-- How often a lease is held.
abbrev pub holds : ℕ → List (String × Instance) → ℕ
holds t [] = 0
holds t ((_, i) ∷ m) = (if i.lease == t then 1 else 0) + holds t m

-- A call other than a reservation, a failed start, the end of a removal and the shutdown leaves the
-- leases of all runners as they are.
apply-held :
    (s : Instances) (o : Op) → kind_of o ≡ keeping → held (apply s o).entries ≡ held s.entries
apply-held s o k = Shape-held k (apply-Shape s o)

holds-delete :
    (t : ℕ) (k : String) (m : List (String × Instance)) (i : Instance)
    → lookup k m ≡ some i
    → holds t m ≡ (if i.lease == t then 1 else 0) + holds t (delete k m)
unfolding lookup delete
holds-delete t k [] i e = ground arith
holds-delete t k ((j, x) ∷ m) i e = ground (arith, holds-delete t k m i)

holds-add :
    (t : ℕ) (k : String) (lease : ℕ) (m : List (String × Instance))
    → holds t (add k (provisioned lease) m) ≡ holds t m + (if lease == t then 1 else 0)
holds-add t k lease [] = ground arith
holds-add t k lease ((j, x) ∷ m) = ground (arith, holds-add t k lease m)

abbrev pub lease_at : Option Removed → ℕ → ℕ
lease_at none t = 0
lease_at (some r) t = if r.lease == t then 1 else 0

-- The end of a removal hands back exactly the lease that left the map, and a refused one nothing.
finish_removal-holds :
    (s : Instances) (name id : String) (t : ℕ)
    → let r = finish_removal s name id in holds t s.entries ≡ lease_at r.1 t + holds t r.0.entries
unfolding finish_removal
finish_removal-holds s name id t = elim (Option-cases (find s name)) [
  | inl e ↦ rw (e, finish_removal_at) (omega arith)
  | inr (i, e) ↦
      rw (e, finish_removal_at)
        (elim (Bool-cases (not (is_removing i.phase) || not (str_eq i.id id))) [
          | inl refused ↦ rw refused (omega arith)
          | inr done ↦ rw done (holds-delete t name s.entries i e)
        ])
]
