-- ===== src/Capacity/Fifo.antt =====
-- The order in which internal/capacity/broker.go serves its queue.
use runscaler.Base.{
  ℕ, zero, suc, ◌≡◌, refl, ◌⊎◌, inl, inr, Bool, true, false, some, List, [], ◌∷◌, arith, Bool-cases,
  Option-cases, get_elem?, All,
}
use runscaler.Capacity.{
  Broker, Waiter, next_waiter, eligible, choose, below_minimum, surplus_available,
}
use runscaler.Capacity.Dispatch.{next_waiter-none}

abbrev pub take {ℓ} : {A : Type ℓ} → ℕ → List A → List A
take zero xs = []
take (suc n) [] = []
take (suc n) (x ∷ xs) = x ∷ take n xs

next_waiter_first :
    (b : Broker) (m : Bool) (ws : List Waiter) (i : ℕ)
    → next_waiter b m ws ≡ some i
    → (w : Waiter) × (get_elem? ws i ≡ some w)
      × (eligible b m w ≡ true)
      × All (λ v. eligible b m v ≡ false) (take i ws)
unfolding next_waiter
next_waiter_first b m [] i h = ground arith
next_waiter_first b m (w ∷ ws) zero h = elim (Bool-cases (eligible b m w)) [
  | inl e ↦ (w, refl, e, tt)
  | inr e ↦ absurd (ground arith)
]
next_waiter_first b m (w ∷ ws) (suc i) h =
    let (v, at, ok, before) = next_waiter_first b m ws i (ground arith) in
    (v, at, ok, (ground arith, before))

-- A request that is cancelled, or whose group already has its minimum.
abbrev pub NoMinimum : Broker → Waiter → Type 0
NoMinimum b w = (w.cancelled ≡ true) ⊎ (below_minimum b w.group ≡ false)

-- A request that is cancelled, or for which the surplus does not suffice.
abbrev pub NoSurplus : Broker → Waiter → Type 0
NoSurplus b w = (w.cancelled ≡ true) ⊎ (surplus_available b w.group ≡ false)

NoMinimum-All :
    (b : Broker) (ws : List Waiter) → All (λ w. eligible b true w ≡ false) ws → All (NoMinimum b) ws
unfolding eligible
NoMinimum-All b [] h = tt
NoMinimum-All b (w ∷ ws) h = (ground arith, NoMinimum-All b ws h.1)

NoSurplus-before :
    (b : Broker) (i : ℕ) (ws : List Waiter)
    → All (NoMinimum b) ws
    → All (λ w. eligible b false w ≡ false) (take i ws)
    → All (NoSurplus b) (take i ws)
unfolding eligible
NoSurplus-before b zero ws k h = tt
NoSurplus-before b (suc i) [] k h = tt
NoSurplus-before b (suc i) (w ∷ ws) k h = (ground arith, NoSurplus-before b i ws k.1 h.1)

-- The waiter chosen is live. Either its group is below its minimum, and no live waiter that stands
-- before it in the queue has a group below its minimum; or no live waiter at all has one, its group
-- may take a surplus slot, and that holds of no live waiter before it.
pub choose_fifo :
    (b : Broker) (i : ℕ)
    → choose b ≡ some i
    → (w : Waiter) × (get_elem? b.waiters i ≡ some w)
      × (w.cancelled ≡ false)
      × (((below_minimum b w.group ≡ true) × All (NoMinimum b) (take i b.waiters))
          ⊎ ((surplus_available b w.group ≡ true)
              × All (NoMinimum b) b.waiters
              × All (NoSurplus b) (take i b.waiters)))
unfolding choose eligible
choose_fifo b i h = elim (Option-cases (next_waiter b true b.waiters)) [
  | inl e ↦
      let (w, at, ok, before) = next_waiter_first b false b.waiters i (rw e at h) in
      let none_below = NoMinimum-All b b.waiters (next_waiter-none b true b.waiters e) in
      (
        w,
        at,
        ground arith,
        inr (ground arith, none_below, NoSurplus-before b i b.waiters none_below before),
      )
  | inr (j, e) ↦
      let (w, at, ok, before) = next_waiter_first b true b.waiters i (ground arith) in
      (w, at, ground arith, inl (ground arith, NoMinimum-All b (take i b.waiters) before))
]
