-- ===== src/Capacity/Dispatch.antt =====
-- The dispatch loop of internal/capacity/broker.go: whom it serves, and when it stops.
use runscaler.Base.{
  ℕ, zero, suc, ◌≡◌, refl, ◌⊎◌, inl, inr, Bool, true, false, none, some, List, [], ◌∷◌, arith,
  Bool-cases, Option-cases, length, get_elem?, length-remove_at, All,
}
use runscaler.Capacity.{
  Broker, Waiter, next_waiter, eligible, choose, below_minimum, surplus_available, has_capacity,
  grant, dispatch_loop, dispatch, compact, compact_waiters,
}

-- A waiter that may have a slot now.
abbrev pub Grantable : Broker → Waiter → Type 0
Grantable b w =
    (w.cancelled ≡ false)
    × ((below_minimum b w.group ≡ true) ⊎ (surplus_available b w.group ≡ true))

eligible-Grantable : (b : Broker) (m : Bool) (w : Waiter) → eligible b m w ≡ true → Grantable b w
unfolding eligible
eligible-Grantable b true w h = ground arith
eligible-Grantable b false w h = ground arith

next_waiter-Grantable :
    (b : Broker) (m : Bool) (ws : List Waiter) (i : ℕ)
    → next_waiter b m ws ≡ some i
    → (w : Waiter) × (get_elem? ws i ≡ some w) × Grantable b w
unfolding next_waiter
next_waiter-Grantable b m [] i h = ground arith
next_waiter-Grantable b m (w ∷ ws) zero h = elim (Bool-cases (eligible b m w)) [
  | inl e ↦ (w, refl, eligible-Grantable b m w e)
  | inr e ↦ absurd (ground arith)
]
next_waiter-Grantable b m (w ∷ ws) (suc i) h = next_waiter-Grantable b m ws i (ground arith)

choose-Grantable :
    (b : Broker) (i : ℕ)
    → choose b ≡ some i
    → (w : Waiter) × (get_elem? b.waiters i ≡ some w) × Grantable b w
unfolding choose
choose-Grantable b i h = elim (Option-cases (next_waiter b true b.waiters)) [
  | inl e ↦ next_waiter-Grantable b false b.waiters i (rw e at h)
  | inr (j, e) ↦ next_waiter-Grantable b true b.waiters i (ground arith)
]

-- What every grant keeps, the loop keeps.
pub dispatch_loop_inv {ℓ} :
    (P : Broker → Type ℓ)
    → ((b : Broker) (w : Waiter) (i : ℕ)
        → has_capacity b ≡ true
        → get_elem? b.waiters i ≡ some w
        → Grantable b w
        → P b
        → P (grant b i))
    → (fuel : ℕ) (b : Broker) → P b
    → P (dispatch_loop fuel b)
unfolding dispatch_loop
dispatch_loop_inv P keep zero b h = h
dispatch_loop_inv P keep (suc fuel) b h = elim (Bool-cases (has_capacity b)) [
  | inr full ↦ rw full h
  | inl room ↦ rw room (elim (Option-cases (choose b)) [
    | inl e ↦ rw (e, dispatch_loop) h
    | inr (i, e) ↦
        let (w, at, ok) = choose-Grantable b i e in
        rw (e, dispatch_loop) (dispatch_loop_inv P keep fuel (grant b i) (keep b w i room at ok h))
  ])
]

-- The invariant rule of `dispatchLocked`.
pub dispatch_inv {ℓ} :
    (P : Broker → Type ℓ)
    → ((b : Broker) (w : Waiter) (i : ℕ)
        → has_capacity b ≡ true
        → get_elem? b.waiters i ≡ some w
        → Grantable b w
        → P b
        → P (grant b i))
    → ((b : Broker) → P b → P (compact_waiters b))
    → (b : Broker) → P b
    → P (dispatch b)
unfolding dispatch
dispatch_inv P keep pack b h = pack _ (dispatch_loop_inv P keep (length b.waiters) b h)

pub next_waiter-none :
    (b : Broker) (m : Bool) (ws : List Waiter)
    → next_waiter b m ws ≡ none
    → All (λ w. eligible b m w ≡ false) ws
unfolding next_waiter
next_waiter-none b m [] h = tt
next_waiter-none b m (w ∷ ws) h = (ground arith, next_waiter-none b m ws (ground arith))

-- Nobody who waits could be served.
abbrev Stuck : Broker → List Waiter → Type 0
Stuck b = All (λ w.
    (w.cancelled ≡ true)
    ⊎ ((below_minimum b w.group ≡ false) × (surplus_available b w.group ≡ false)))

Stuck-of-eligible :
    (b : Broker) (ws : List Waiter)
    → All (λ w. eligible b true w ≡ false) ws
    → All (λ w. eligible b false w ≡ false) ws
    → Stuck b ws
unfolding eligible
Stuck-of-eligible b [] h k = tt
Stuck-of-eligible b (w ∷ ws) h k = (ground arith, Stuck-of-eligible b ws h.1 k.1)

choose-Stuck : (b : Broker) → choose b ≡ none → Stuck b b.waiters
unfolding choose
choose-Stuck b h = elim (Option-cases (next_waiter b true b.waiters)) [
  | inl e ↦
      Stuck-of-eligible b b.waiters (next_waiter-none b true b.waiters e)
        (next_waiter-none b false b.waiters (rw e at h))
  | inr (i, e) ↦ absurd (ground arith)
]

abbrev Settled : Broker → Type 0
Settled b = (has_capacity b ≡ false) ⊎ Stuck b b.waiters

grant-length :
    (b : Broker) (i n : ℕ) {w : Waiter}
    → get_elem? b.waiters i ≡ some w
    → length b.waiters ≡ suc n
    → length (grant b i).waiters ≡ n
unfolding grant
grant-length b i n h e = ground (arith, length-remove_at b.waiters i h)

Stuck-empty : (b : Broker) (ws : List Waiter) → length ws ≡ 0 → Stuck b ws
Stuck-empty b [] h = tt
Stuck-empty b (w ∷ ws) h = absurd (omega arith)

-- As much fuel as there are waiters lets the loop end by its own test.
dispatch_loop-Settled :
    (fuel : ℕ) (b : Broker) → length b.waiters ≡ fuel → Settled (dispatch_loop fuel b)
unfolding dispatch_loop
dispatch_loop-Settled zero b h = inr (Stuck-empty b b.waiters h)
dispatch_loop-Settled (suc fuel) b h = elim (Bool-cases (has_capacity b)) [
  | inr full ↦ rw full (inl full)
  | inl room ↦ rw room (elim (Option-cases (choose b)) [
    | inl e ↦ rw (e, dispatch_loop) (inr (choose-Stuck b e))
    | inr (i, e) ↦
        let (w, at, ok) = choose-Grantable b i e in
        rw (e, dispatch_loop) (dispatch_loop-Settled fuel (grant b i) (grant-length b i fuel at h))
  ])
]

-- What `dispatch` leaves behind: no slot is free, or nobody in the queue could be given one.
abbrev pub Idle : Broker → Type 0
Idle b =
    (has_capacity b ≡ false)
    ⊎ All (λ w. (below_minimum b w.group ≡ false) × (surplus_available b w.group ≡ false)) b.waiters

compact-Stuck :
    (b : Broker) (ws : List Waiter)
    → Stuck b ws
    → All
        (λ w. (below_minimum b w.group ≡ false) × (surplus_available b w.group ≡ false))
        (compact ws)
unfolding compact
compact-Stuck b [] h = tt
compact-Stuck b (w ∷ ws) h = ground (arith, compact-Stuck b ws h.1)

compact-live : (ws : List Waiter) → All (λ w. w.cancelled ≡ false) (compact ws)
unfolding compact
compact-live [] = tt
compact-live (w ∷ ws) = ground (arith, compact-live ws)

Settled-Idle : (b : Broker) → Settled b → Idle (compact_waiters b)
unfolding surplus_available
Settled-Idle b (inl full) = inl full
Settled-Idle b (inr stuck) = inr (compact-Stuck b b.waiters stuck)

-- After a dispatch no slot is idle that somebody in the queue could be given (for want of a slot,
-- or because the group has its minimum and the surplus is reserved), and no cancelled request is
-- left in the queue. So no wakeup is lost: whoever waits has to.
pub dispatch-Idle :
    (b : Broker) → Idle (dispatch b) × All (λ w. w.cancelled ≡ false) (dispatch b).waiters
unfolding dispatch
dispatch-Idle b =
    let c = dispatch_loop (length b.waiters) b in
    (Settled-Idle c (dispatch_loop-Settled (length b.waiters) b refl), compact-live c.waiters)
