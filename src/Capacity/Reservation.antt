-- ===== src/Capacity/Reservation.antt =====
-- The slots that internal/capacity/broker.go keeps for the minimums of its groups.
use runscaler.Base.{
  ℕ, ◌+◌, ◌-◌, ◌≤◌, ◌<◌, ◌≡◌, subst, inl, inr, String, str_eq, eq_iff, true, false, none, some,
  List, [], ◌∷◌, arith, Bool-cases, Option-cases, is_some, get_elem?,
}
use runscaler.Base.Assoc.{lookup, modify, Distinct, modify-Distinct}
use runscaler.Base.Int.{pos_part}
use runscaler.Capacity.{
  Broker, Group, Waiter, acquire, abandon, release, release_found, grant, has_capacity, dispatch,
  add_use, drop_use, find_lease, surplus_available, reserved_for_others,
}
use runscaler.Capacity.Dispatch.{Grantable, dispatch_inv}
use runscaler.Capacity.Counting.{Inv, live-mark}
use runscaler.Capacity.Reach.{Call, acquires, abandons, releases}

-- The slots that the groups still need for their minimums.
abbrev pub deficits : List (String × Group) → ℕ
deficits [] = 0
deficits ((k, g) ∷ gs) = g.minimum - g.in_use + deficits gs

-- With a limit, the slots in use and those reserved fit into it.
abbrev pub Reserved : Broker → Type 0
Reserved b = 0 < pos_part b.limit → b.in_use + deficits b.groups ≤ pos_part b.limit

deficits-add :
    (name : String) (gs : List (String × Group)) (g : Group)
    → lookup name gs ≡ some g
    → deficits gs
      ≡ deficits (modify name add_use gs) + (g.minimum - g.in_use) - (g.minimum - (g.in_use + 1))
unfolding lookup modify
deficits-add name [] g h = ground arith
deficits-add name ((k, x) ∷ gs) g h = ground (arith, deficits-add name gs g)

deficits-add_le :
    (name : String) (gs : List (String × Group)) → deficits (modify name add_use gs) ≤ deficits gs
unfolding modify
deficits-add_le name [] = omega arith
deficits-add_le name ((k, x) ∷ gs) = ground (arith, deficits-add_le name gs)

deficits-drop :
    (name : String) (gs : List (String × Group))
    → deficits (modify name drop_use gs) ≤ deficits gs + 1
unfolding modify
deficits-drop name [] = omega arith
deficits-drop name ((k, x) ∷ gs) = ground (arith, deficits-drop name gs)

pub deficit-le :
    (name : String) (gs : List (String × Group)) (g : Group)
    → lookup name gs ≡ some g
    → g.minimum - g.in_use ≤ deficits gs
unfolding lookup
deficit-le name [] g h = ground arith
deficit-le name ((k, x) ∷ gs) g h = ground (arith, deficit-le name gs g)

reserved_other :
    (name : String) (gs : List (String × Group))
    → lookup name gs ≡ none
    → deficits gs ≤ reserved_for_others name gs
unfolding lookup reserved_for_others
reserved_other name [] h = omega arith
reserved_other name ((k, x) ∷ gs) h = ground (arith, reserved_other name gs)

-- A group that has its minimum is skipped, so all the deficits are others'.
reserved_satisfied :
    (name : String) (gs : List (String × Group)) (g : Group)
    → lookup name gs ≡ some g
    → g.minimum ≤ g.in_use
    → Distinct gs
    → deficits gs ≤ reserved_for_others name gs
unfolding lookup reserved_for_others
reserved_satisfied name [] g h k d = ground arith
reserved_satisfied name ((k', x) ∷ gs) g h k d = elim (Bool-cases (str_eq k' name)) [
  | inl e ↦
      ground
        (arith, reserved_other name gs (subst (λ n. lookup n gs ≡ none) ((eq_iff k' name).0 e) d.0))
  | inr e ↦ ground (arith, reserved_satisfied name gs g (ground arith) k d.1)
]

grant-Reserved :
    (b : Broker) (w : Waiter) (i : ℕ)
    → has_capacity b ≡ true
    → get_elem? b.waiters i ≡ some w
    → Grantable b w
    → Distinct b.groups
    → Reserved b
    → Reserved (grant b i)
unfolding grant surplus_available
grant-Reserved b w i room at ok d r = elim (Option-cases (lookup w.group b.groups)) [
  | inl e ↦
      rw (at, grant)
        (λ pos. ground (
          arith,
          ok.1,
          e,
          reserved_other w.group b.groups e,
          deficits-add_le w.group b.groups,
          r pos,
        ))
  | inr (g, e) ↦
      rw (at, grant)
        (λ pos. ground (
          arith,
          ok.1,
          e,
          reserved_satisfied w.group b.groups g e,
          d,
          deficits-add w.group b.groups g e,
          deficits-add_le w.group b.groups,
          deficit-le w.group b.groups g e,
          r pos,
        ))
]

grant-Distinct :
    (b : Broker) (w : Waiter) (i : ℕ)
    → get_elem? b.waiters i ≡ some w
    → Distinct b.groups
    → Distinct (grant b i).groups
unfolding grant
grant-Distinct b w i at d = rw (at, grant) (modify-Distinct w.group add_use b.groups d)

dispatch-Reserved : (b : Broker) → Distinct b.groups → Reserved b → Reserved (dispatch b)
dispatch-Reserved b d r =
    (dispatch_inv (λ c. Distinct c.groups × Reserved c)
      (λ c w i room at ok h. (grant-Distinct c w i at h.0, grant-Reserved c w i room at ok h.0 h.1))
      (λ c h. h) b (d, r)).1

release-Reserved : (b : Broker) (t : ℕ) → Inv b → Reserved b → Reserved (release b t)
unfolding release
release-Reserved b t v r = elim (Option-cases (find_lease t b.leases)) [
  | inl e ↦ rw (e, release_found) r
  | inr (l, e) ↦
      rw (e, release_found)
        (elim (Bool-cases l.released) [
          | inl spent ↦ rw spent r
          | inr out ↦ rw out (
              dispatch-Reserved _ (modify-Distinct l.group drop_use b.groups v.distinct) (λ pos.
                omega (
                  arith,
                  r pos,
                  v.counted,
                  live-mark t b.leases l e out,
                  deficits-drop l.group b.groups,
                )))
        ])
]

pub Call-Reserved : {b c : Broker} → Call b c → Inv b → Reserved b → Reserved c
unfolding acquire abandon
Call-Reserved (acquires b true name k) v r = r
Call-Reserved (acquires b false name k) v r = dispatch-Reserved _ v.distinct r
Call-Reserved (abandons b t) v r = elim (Bool-cases (is_some (find_lease t b.leases))) [
  | inl granted ↦ rw granted (release-Reserved b t v r)
  | inr waits ↦ rw waits (dispatch-Reserved _ v.distinct r)
]
Call-Reserved (releases b t) v r = release-Reserved b t v r
