-- ===== src/Capacity/Guarantee.antt =====
-- Requests of a group that is below its minimum (internal/capacity/broker.go).
use runscaler.Base.{
  ℕ, ◌+◌, ◌≡◌, refl, sym, ap, ◌∙◌, subst, inl, inr, String, true, false, some, List, [], ◌∷◌, ◌++◌,
  arith, ◌==◌, Bool-cases, Option-cases, is_some, length, length-append, get_elem?, All, All-mono,
}
use runscaler.Base.Assoc.{lookup}
use runscaler.Base.Int.{ℤ}
use runscaler.Capacity.{
  Broker, Waiter, Lease, new_broker, acquire, abandon, release, release_found, grant, has_capacity,
  dispatch, dispatch_loop, find_lease, below_minimum, eligible, next_waiter, choose, or_else,
  leased,
}
use runscaler.Capacity.Dispatch.{dispatch-Idle, Idle, dispatch_loop_inv}
use runscaler.Capacity.Counting.{Inv}
use runscaler.Capacity.Leases.{grant-find_lease}
use runscaler.Capacity.Reservation.{Reserved, deficit-le, Call-Reserved}
use runscaler.Capacity.Reach.{
  Call, acquires, abandons, releases, Run, idle, after, Reach, Call-Inv, Reach-Inv,
}
use native.Mathlib.Numerals.{add-one}

-- A slot is free while some group lacks its minimum.
below-has_capacity :
    (b : Broker) (name : String) → Reserved b → below_minimum b name ≡ true → has_capacity b ≡ true
below-has_capacity b name r h = elim (Option-cases (lookup name b.groups)) [
  | inl e ↦ absurd (ground arith)
  | inr (g, e) ↦ ground (arith, deficit-le name b.groups g e)
]

-- Nobody who waits is below the minimum.
abbrev NoneBelow : Broker → Type 0
NoneBelow b = All (λ w. below_minimum b w.group ≡ false) b.waiters

Idle-NoneBelow : (b : Broker) → Reserved b → Idle b → NoneBelow b
Idle-NoneBelow b r (inr h) = All-mono _ _ b.waiters (λ w p. p.0) h
Idle-NoneBelow b r (inl full) = All-refl b.waiters λ w.
    elim (Bool-cases (below_minimum b w.group)) [
      | inl e ↦ absurd (ground (arith, below-has_capacity b w.group r e))
      | inr e ↦ e
    ]
  where
    All-refl :
        (ws : List Waiter)
        → ((w : Waiter) → below_minimum b w.group ≡ false)
        → All (λ w. below_minimum b w.group ≡ false) ws
    All-refl [] f = tt
    All-refl (w ∷ ws) f = (f w, All-refl ws f)

-- The request at the end of the queue is the one that is below its minimum.
next_waiter_last :
    (b : Broker) (ws : List Waiter) (w : Waiter)
    → All (λ v. below_minimum b v.group ≡ false) ws
    → w.cancelled ≡ false
    → below_minimum b w.group ≡ true
    → (next_waiter b true (ws ++ w ∷ []) ≡ some (length ws))
      × (get_elem? (ws ++ w ∷ []) (length ws) ≡ some w)
unfolding next_waiter eligible
next_waiter_last b [] w h c k = ground arith
next_waiter_last b (v ∷ ws) w h c k = ground (arith, next_waiter_last b ws w h.1 c k)

abbrev Granted : ℕ → Broker → Type 0
Granted t b = (l : Lease) × (find_lease t b.leases ≡ some l)

find_lease-last :
    (t : ℕ) (g : String) (ls : List Lease)
    → (l : Lease) × (find_lease t (ls ++ record { ticket = t; group = g; released = false } ∷ [])
        ≡ some l)
unfolding find_lease
find_lease-last t g [] = (record { ticket = t; group = g; released = false }, ground arith)
find_lease-last t g (x ∷ ls) = elim (Bool-cases (x.ticket == t)) [
  | inl e ↦ (x, rw (e, find_lease))
  | inr e ↦ let (l, h) = find_lease-last t g ls in (l, rw (e, find_lease) h)
]

grant-Granted :
    (b : Broker) (w : Waiter) (i : ℕ)
    → get_elem? b.waiters i ≡ some w
    → Granted w.ticket (grant b i)
unfolding grant
grant-Granted b w i at = rw (at, grant) (find_lease-last w.ticket w.group b.leases)

dispatch_loop-Granted : (t fuel : ℕ) (b : Broker) → Granted t b → Granted t (dispatch_loop fuel b)
dispatch_loop-Granted t =
    dispatch_loop_inv (Granted t) (λ b w i room at ok (l, e). (l, grant-find_lease b i t l e))

-- The first round of the dispatch serves it.
dispatch-Granted :
    (b : Broker) (ws : List Waiter) (w : Waiter)
    → b.waiters ≡ ws ++ w ∷ []
    → Reserved b
    → All (λ v. below_minimum b v.group ≡ false) ws
    → w.cancelled ≡ false
    → below_minimum b w.group ≡ true
    → Granted w.ticket (dispatch b)
unfolding dispatch choose dispatch_loop find_lease
dispatch-Granted b ws w e r h c k =
    let (first, at) = next_waiter_last b ws w h c k in
    rw (ap length e ∙ length-append ws (w ∷ []), add-one)
      (rw (below-has_capacity b w.group r k, dispatch_loop)
        (rw (chosen first, dispatch_loop)
          (dispatch_loop-Granted w.ticket (length ws) (grant b (length ws))
            (grant-Granted b w (length ws) (rw e at)))))
  where
    chosen : next_waiter b true (ws ++ w ∷ []) ≡ some (length ws) → choose b ≡ some (length ws)
    chosen first =
        subst (λ xs. or_else (next_waiter b true xs) (next_waiter b false xs) ≡ some (length ws))
          (sym e) (ap (λ o. or_else o (next_waiter b false (ws ++ w ∷ []))) first)

-- What holds between two calls once every scale set is registered.
abbrev Sound : Broker → Type 0
Sound b = Inv b × Reserved b × NoneBelow b

release-NoneBelow :
    (b : Broker) (t : ℕ) → Reserved (release b t) → NoneBelow b → NoneBelow (release b t)
unfolding release
release-NoneBelow b t r h = elim (Option-cases (find_lease t b.leases)) [
  | inl e ↦ rw (e, release_found) h
  | inr (l, e) ↦
      rw (e, release_found)
        (elim (Bool-cases l.released) [
          | inl spent ↦ rw spent h
          | inr out ↦
              rw out (Idle-NoneBelow _ (rw (e, release_found, out) at r) (dispatch-Idle _).0)
        ])
]

Call-NoneBelow : {b c : Broker} → Call b c → Reserved c → NoneBelow b → NoneBelow c
unfolding acquire abandon
Call-NoneBelow (acquires b true name k) r h = h
Call-NoneBelow (acquires b false name k) r h = Idle-NoneBelow _ r (dispatch-Idle _).0
Call-NoneBelow (abandons b t) r h = elim (Bool-cases (is_some (find_lease t b.leases))) [
  | inl granted ↦ rw granted (release-NoneBelow b t (rw granted at r) h)
  | inr waits ↦ rw waits (Idle-NoneBelow _ (rw waits at r) (dispatch-Idle _).0)
]
Call-NoneBelow (releases b t) r h = release-NoneBelow b t r h

Run-Sound : {b c : Broker} → Run b c → Sound b → Sound c
Run-Sound idle h = h
Run-Sound (after r c) h =
    let (v, k, n) = Run-Sound r h in
    let k' = Call-Reserved c v k in (Call-Inv c v, k', Call-NoneBelow c k' n)

acquire-leased :
    (b : Broker) (name : String)
    → Sound b
    → below_minimum b name ≡ true
    → (acquire b false (some name)).1 ≡ leased b.next_ticket
unfolding acquire
acquire-leased b name (v, r, n) k =
    let w : Waiter = record { ticket = b.next_ticket; group = name; cancelled = false } in
    let (l, e) =
      dispatch-Granted (record b { waiters = b.waiters ++ w ∷ []; next_ticket = b.next_ticket + 1 })
        b.waiters w refl r n refl k in
    rw e

-- Let every scale set be registered before the first request, with minimums that fit into the
-- limit (or no limit). Then, after any calls, a request for a group that is below its minimum is
-- granted at once: it never blocks, however many surplus runners the other groups hold or want.
pub minimum_guaranteed :
    (limit : ℤ) (b c : Broker) (name : String)
    → Reach (new_broker limit) b
    → b.waiters ≡ []
    → Reserved b
    → Run b c
    → below_minimum c name ≡ true
    → (acquire c false (some name)).1 ≡ leased c.next_ticket
minimum_guaranteed limit b c name r empty fits run k =
    acquire-leased c name
      (Run-Sound run (
        Reach-Inv limit r,
        fits,
        subst (All (λ w. below_minimum b w.group ≡ false)) (sym empty) tt,
      ))
      k

-- With a limit, the slots in use and the minimums still due never exceed it, after any calls.
Run-Reserved :
    (limit : ℤ) (b c : Broker) → Reach (new_broker limit) b → Reserved b → Run b c → Reserved c
Run-Reserved limit b c r fits idle = fits
Run-Reserved limit b c r fits (after {c = m} run call) =
    Call-Reserved call (Run-Inv run (Reach-Inv limit r)) (Run-Reserved limit b m r fits run)
  where
    Run-Inv : {x y : Broker} → Run x y → Inv x → Inv y
    Run-Inv idle v = v
    Run-Inv (after q call') v = Call-Inv call' (Run-Inv q v)
