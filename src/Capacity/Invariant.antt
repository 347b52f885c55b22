-- ===== src/Capacity/Invariant.antt =====
-- The books of the broker of internal/capacity/broker.go: its counters and the leases that are out.
use runscaler.Base.{
  ℕ, ◌-◌, ◌≡◌, refl, subst, inl, inr, String, eq_iff, Bool, true, false, some, List, [], ◌∷◌, ◌++◌,
  arith, ◌==◌, Bool-cases, Option-cases, is_some, get_elem?, All, All-append, All-remove_at,
}
use runscaler.Base.Assoc.{modify, modify-Distinct}
use runscaler.Capacity.{
  Broker, Waiter, Lease, acquire, abandon, release, release_found, grant, has_capacity, dispatch,
  compact, add_use, drop_use, find_lease, mark_released, cancel_waiter,
}
use runscaler.Capacity.Dispatch.{dispatch_inv}
use runscaler.Capacity.Counting.{
  live_of, Known, Inv, Counts-modify, live-append, live_of-append, live-mark, live_of-mark,
  Known-waiters, Known-leases, All-get_elem?,
}

-- A slot given to a waiter: the lease is entered in the broker's and the group's counter.
grant-Inv :
    (b : Broker) (w : Waiter) (i : ℕ)
    → has_capacity b ≡ true
    → get_elem? b.waiters i ≡ some w
    → Inv b
    → Inv (grant b i)
unfolding grant
grant-Inv b w i room at v =
    let l : Lease = record { ticket = w.ticket; group = w.group; released = false } in
    rw (at, grant)
      (record {
        distinct = modify-Distinct w.group add_use b.groups v.distinct;
        counted = omega (arith, live-append b.leases l refl, v.counted);
        grouped =
            Counts-modify (λ k. live_of k b.leases) (λ k. live_of k (b.leases ++ l ∷ [])) w.group
              add_use b.groups
              (λ g e. ground (arith, live_of-append w.group b.leases l, eq_iff w.group w.group))
              (λ k e. ground (arith, live_of-append k b.leases l)) v.distinct v.grouped;
        within = λ h. ground (arith, v.within);
        waiting = Known-waiters b.groups w.group add_use _ (All-remove_at _ b.waiters i v.waiting);
        leasing = Known-leases b.groups w.group add_use _ (
            All-append _ b.leases (l ∷ []) v.leasing
              (All-get_elem? (λ x. Known b.groups x.group) b.waiters i at v.waiting, tt));
      })

compact-All {κ} : (P : Waiter → Type κ) (ws : List Waiter) → All P ws → All P (compact ws)
unfolding compact
compact-All P [] h = tt
compact-All P (w ∷ ws) h = ground (arith, compact-All P ws h.1)

dispatch-Inv : (b : Broker) → Inv b → Inv (dispatch b)
dispatch-Inv =
    dispatch_inv Inv (λ b w i room at ok v. grant-Inv b w i room at v)
      (λ b v. record {
        distinct = v.distinct;
        counted = v.counted;
        grouped = v.grouped;
        within = v.within;
        waiting = compact-All _ b.waiters v.waiting;
        leasing = v.leasing;
      })

All-find_lease {κ} :
    (P : Lease → Type κ) (t : ℕ) (ls : List Lease) {l : Lease}
    → find_lease t ls ≡ some l
    → All P ls
    → P l
unfolding find_lease
All-find_lease P t [] h a = absurd (ground arith)
All-find_lease P t (x ∷ ls) {l} h a = elim (Bool-cases (x.ticket == t)) [
  | inl e ↦ subst P (ground arith) a.0
  | inr e ↦ All-find_lease P t ls (ground arith) a.1
]

pub find_lease-ticket :
    (t : ℕ) (ls : List Lease) (l : Lease) → find_lease t ls ≡ some l → l.ticket ≡ t
unfolding find_lease
find_lease-ticket t [] l h = ground arith
find_lease-ticket t (x ∷ ls) l h = ground (arith, find_lease-ticket t ls l)

All-mark :
    (Q : String → Type 0) (t : ℕ) (ls : List Lease)
    → All (λ l. Q l.group) ls
    → All (λ l. Q l.group) (mark_released t ls)
unfolding mark_released
All-mark Q t [] h = tt
All-mark Q t (x ∷ ls) h = elim (Bool-cases (x.ticket == t)) [
  | inl e ↦ rw (e, mark_released) h
  | inr e ↦ rw (e, mark_released) (h.0, All-mark Q t ls h.1)
]

-- The books after a live lease is marked, before its slot is handed on.
give_back-Inv :
    (b : Broker) (t : ℕ) (l : Lease)
    → find_lease t b.leases ≡ some l
    → l.released ≡ false
    → Inv b
    → Inv (record b {
      in_use = b.in_use - 1;
      groups = modify l.group drop_use b.groups;
      leases = mark_released t b.leases;
    })
give_back-Inv b t l at out v = record {
  distinct = modify-Distinct l.group drop_use b.groups v.distinct;
  counted = omega (arith, live-mark t b.leases l at out, v.counted);
  grouped =
      Counts-modify (λ k. live_of k b.leases) (λ k. live_of k (mark_released t b.leases)) l.group
        drop_use b.groups
        (λ g e. ground (arith, live_of-mark l.group t b.leases l at out, eq_iff l.group l.group))
        (λ k e. ground (arith, live_of-mark k t b.leases l at out)) v.distinct v.grouped;
  within = λ h. omega (arith, v.within h);
  waiting = Known-waiters b.groups l.group drop_use b.waiters v.waiting;
  leasing =
      Known-leases b.groups l.group drop_use _ (All-mark (Known b.groups) t b.leases v.leasing);
}

pub release-Inv : (b : Broker) (t : ℕ) → Inv b → Inv (release b t)
unfolding release
release-Inv b t v = elim (Option-cases (find_lease t b.leases)) [
  | inl e ↦ rw (e, release_found) v
  | inr (l, e) ↦
      rw (e, release_found)
        (elim (Bool-cases l.released) [
          | inl spent ↦ rw spent v
          | inr out ↦
              rw (out, find_lease-ticket t b.leases l e)
                (dispatch-Inv _ (give_back-Inv b t l e out v))
        ])
]

pub acquire-Inv :
    (b : Broker) (ended : Bool) (name : String)
    → Known b.groups name
    → Inv b
    → Inv (acquire b ended (some name)).0
unfolding acquire
acquire-Inv b true name k v = v
acquire-Inv b false name k v = dispatch-Inv _ (record {
  distinct = v.distinct;
  counted = v.counted;
  grouped = v.grouped;
  within = v.within;
  waiting = All-append _ b.waiters _ v.waiting (k, tt);
  leasing = v.leasing;
})

cancel_waiter-Known :
    (Q : String → Type 0) (t : ℕ) (ws : List Waiter)
    → All (λ w. Q w.group) ws
    → All (λ w. Q w.group) (cancel_waiter t ws)
unfolding cancel_waiter
cancel_waiter-Known Q t [] h = tt
cancel_waiter-Known Q t (w ∷ ws) h = elim (Bool-cases (w.ticket == t)) [
  | inl e ↦ rw (e, cancel_waiter) h
  | inr e ↦ rw (e, cancel_waiter) (h.0, cancel_waiter-Known Q t ws h.1)
]

pub abandon-Inv : (b : Broker) (t : ℕ) → Inv b → Inv (abandon b t)
unfolding abandon
abandon-Inv b t v = elim (Bool-cases (is_some (find_lease t b.leases))) [
  | inl granted ↦ rw granted (release-Inv b t v)
  | inr waits ↦ rw waits (
      dispatch-Inv _ (record {
        distinct = v.distinct;
        counted = v.counted;
        grouped = v.grouped;
        within = v.within;
        waiting = cancel_waiter-Known (Known b.groups) t b.waiters v.waiting;
        leasing = v.leasing;
      }))
]
