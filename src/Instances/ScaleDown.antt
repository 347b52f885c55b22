-- ===== src/Instances/ScaleDown.antt =====
-- `markIdleAboveTarget` and `idleForRemoval` of internal/controller/state.go: which runners they give
-- up.
use runscaler.Base.{
  ℕ, suc, ◌≤◌, ◌<◌, ◌≡◌, refl, subst, ◌⊎◌, inl, inr, String, str_eq, eq_iff, true, false, some,
  List, [], ◌∷◌, arith, Bool-cases, Option-cases,
}
use runscaler.Base.Assoc.{lookup, modify, lookup-modify}
use runscaler.Instances.{Instances, Instance, busy, find, is_idle}
use runscaler.Instances.Ops.Claims.{
  mark_idle_above_target, remove_first_idle, idle_at, scaled_down_instance, planned, planned_in,
  idle_for_removal, drain_all, drains,
}

planned-modify :
    (k : String) (m : List (String × Instance)) (i : Instance)
    → lookup k m ≡ some i
    → is_idle i.phase ≡ true
    → planned_in m ≡ suc (planned_in (modify k scaled_down_instance m))
unfolding lookup modify
planned-modify k [] i e h = ground arith
planned-modify k ((j, x) ∷ m) i e h = ground (arith, planned-modify k m i)

remove_first_idle-planned :
    (s : Instances) (names : List String)
    → (remove_first_idle s names).1 ≡ true
    → planned s ≡ suc (planned (remove_first_idle s names).0)
unfolding remove_first_idle
remove_first_idle-planned s [] h = ground arith
remove_first_idle-planned s (k ∷ names) h = elim (Option-cases (find s k)) [
  | inl e ↦ rw (e, idle_at) (remove_first_idle-planned s names (rw (e, idle_at) at h))
  | inr (i, e) ↦ elim (Bool-cases (is_idle i.phase)) [
    | inl p ↦ rw (e, p) (planned-modify k s.entries i e p)
    | inr p ↦ rw (e, p) (remove_first_idle-planned s names (rw (e, p) at h))
  ]
]

remove_first_idle-refused :
    (s : Instances) (names : List String)
    → (remove_first_idle s names).1 ≡ false
    → (remove_first_idle s names).0 ≡ s
unfolding remove_first_idle
remove_first_idle-refused s [] h = refl
remove_first_idle-refused s (k ∷ names) h = ground (arith, remove_first_idle-refused s names)

-- Some runner among those visited is idle.
abbrev pub AnyIdle : Instances → List String → Type 0
AnyIdle s [] = ⊥
AnyIdle s (k ∷ names) = (idle_at (find s k) ≡ true) ⊎ AnyIdle s names

remove_first_idle-AnyIdle :
    (s : Instances) (names : List String) → AnyIdle s names → (remove_first_idle s names).1 ≡ true
unfolding remove_first_idle
remove_first_idle-AnyIdle s [] h = absurd h
remove_first_idle-AnyIdle s (k ∷ names) (inl h) = rw h
remove_first_idle-AnyIdle s (k ∷ names) (inr h) =
    ground (arith, remove_first_idle-AnyIdle s names h)

-- A scale-down that reports success gives up exactly one of the planned runners and leaves at least
-- the target; one that reports failure changes nothing.
pub scale_down_lem :
    (s : Instances) (names : List String) (target : ℕ)
    → let r = mark_idle_above_target s names target in
      ((r.1 ≡ true) × (planned s ≡ suc (planned r.0)) × (target ≤ planned r.0))
      ⊎ ((r.1 ≡ false) × (r.0 ≡ s))
unfolding mark_idle_above_target
scale_down_lem s names target = elim (Bool-cases (mark_idle_above_target s names target).1) [
  | inl e ↦ inl (
    e,
    ground (arith, remove_first_idle-planned s names),
    ground (arith, remove_first_idle-planned s names),
  )
  | inr e ↦ inr (e, ground (arith, remove_first_idle-refused s names))
]

-- A scale-down succeeds where more runners are planned than the target and one that it visits is
-- idle.
scale_down_finds :
    (s : Instances) (names : List String) (target : ℕ)
    → target < planned s
    → AnyIdle s names
    → (mark_idle_above_target s names target).1 ≡ true
unfolding mark_idle_above_target
scale_down_finds s names target h k = ground (arith, remove_first_idle-AnyIdle s names k)

modify_other :
    (k name : String) (m : List (String × Instance)) (i : Instance)
    → lookup name m ≡ some i
    → i.phase ≡ busy
    → idle_at (lookup k m) ≡ true
    → lookup name (modify k scaled_down_instance m) ≡ some i
modify_other k name m i e b h =
    rw (lookup-modify name k scaled_down_instance m) (elim (Bool-cases (str_eq k name)) [
      | inr other ↦ rw other e
      | inl hit ↦
          absurd
            (ground (arith, subst (λ n. idle_at (lookup n m) ≡ true) ((eq_iff k name).0 hit) h))
    ])

remove_first_idle-busy :
    (s : Instances) (names : List String) (name : String) (i : Instance)
    → find s name ≡ some i
    → i.phase ≡ busy
    → find (remove_first_idle s names).0 name ≡ some i
unfolding remove_first_idle
remove_first_idle-busy s [] name i e b = e
remove_first_idle-busy s (k ∷ names) name i e b = elim (Bool-cases (idle_at (find s k))) [
  | inl h ↦ rw h (modify_other k name s.entries i e b h)
  | inr h ↦ rw h (remove_first_idle-busy s names name i e b)
]

drain_all-busy :
    (m : List (String × Instance)) (name : String) (i : Instance)
    → lookup name m ≡ some i
    → i.phase ≡ busy
    → lookup name (drain_all m) ≡ some i
unfolding lookup
drain_all-busy [] name i e b = e
drain_all-busy ((k, x) ∷ m) name i e b = ground (arith, drain_all-busy m name i)

-- Neither a scale-down nor a drain touches a busy runner.
busy_never_preempted :
    (s : Instances) (name : String) (i : Instance) (names : List String) (target : ℕ)
    → find s name ≡ some i
    → i.phase ≡ busy
    → (find (mark_idle_above_target s names target).0 name ≡ some i)
      × (find (idle_for_removal s).0 name ≡ some i)
unfolding mark_idle_above_target idle_for_removal
busy_never_preempted s name i names target e b =
    (ground (arith, remove_first_idle-busy s names name i e b), drain_all-busy s.entries name i e b)

drain_all-none :
    (m : List (String × Instance)) (name : String) (i : Instance)
    → lookup name (drain_all m) ≡ some i
    → drains i ≡ false
unfolding lookup
drain_all-none [] name i e = ground arith
drain_all-none ((k, x) ∷ m) name i e = ground (arith, drain_all-none m name i)

-- After a drain every runner in the map is busy or is being removed.
idle_for_removal_lem :
    (s : Instances) (name : String) (i : Instance)
    → find (idle_for_removal s).0 name ≡ some i
    → drains i ≡ false
unfolding idle_for_removal
idle_for_removal_lem s name i e = drain_all-none s.entries name i e
