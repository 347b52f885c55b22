-- ===== src/Tart/Slots.antt =====
-- The slots of internal/provider/tart.go over all operations, in any order.
use runscaler.Base.{
  ℕ, zero, suc, ◌+◌, ◌<◌, ◌≤◌, ◌≡◌, refl, inl, inr, String, Bool, true, false, ◌&&◌, not, some,
  List, [], ◌∷◌, arith, All, Bool-cases, ltb, ◌==◌, if◌then◌else◌, length,
}
use runscaler.Tart.Conserves.{
  times, tally, holders, IsKept, Conserves, Conserves-trans, same-Conserves, boot_end-Conserves,
  move-Conserves, run_on-Conserves, start_warm-Conserves, destroy_vm-Conserves, ended-Conserves,
  removed_at-Conserves, acquired-Conserves,
}
use runscaler.Tart.{
  Coordinator, Vm, Answers, BootEnd, new_coordinator, slots_from, acquire, boot_end, destroy_vm,
  vm_exits, pool_vm, run_on, start_warm, remove_instance, pooled,
}

pub data Step (c : Coordinator) : Coordinator → Type 0 where
  acquires : (d : Coordinator) (name : String) → acquire c name ≡ some d → Step c d
  boots : (id : ℕ) (e : BootEnd) → Step c (boot_end c id e)
  pools : (i : ℕ) → Step c (pool_vm c i)
  runs : (v : Vm) (a : Answers) → Step c (run_on c v a).0
  starts : (vs : List (Vm × Answers)) → Step c (start_warm c vs).0
  destroys : (i : ℕ) (stopped deleted : Bool) → Step c (destroy_vm c i stopped deleted)
  exits : (i : ℕ) → Step c (vm_exits c i)
  removes :
      (name : String) (stopped deleted gone : Bool)
      → Step c (remove_instance c name stopped deleted gone).0

pub data Reach (c : Coordinator) : Coordinator → Type 0 where
  here : Reach c c
  next : {d e : Coordinator} → Reach c d → Step d e → Reach c e

Step-Conserves : (c d : Coordinator) → All IsKept c.vms → Step c d → Conserves c d
unfolding acquire pool_vm vm_exits remove_instance
Step-Conserves c d h (acquires _ name e) = acquired-Conserves c h name c.next_id c.slots d e
Step-Conserves c d h (boots id e) = boot_end-Conserves c h id e
Step-Conserves c d h (pools id) = move-Conserves c h id pooled refl
Step-Conserves c d h (runs v a) = run_on-Conserves c h v a
Step-Conserves c d h (starts vs) = start_warm-Conserves vs c h
Step-Conserves c d h (destroys id stopped deleted) = destroy_vm-Conserves c h id stopped deleted
Step-Conserves c d h (exits id) = ended-Conserves c h id
Step-Conserves c d h (removes name stopped deleted gone) = removed_at-Conserves c h _ _

Reach-Conserves : (c d : Coordinator) → All IsKept c.vms → Reach c d → Conserves c d
Reach-Conserves c d h here = same-Conserves c h
Reach-Conserves c e h (next {d} r s) =
    let before = Reach-Conserves c d h r in
    Conserves-trans c d e before (Step-Conserves d e before.0 s)

times-slots_from-lt : (i a n : ℕ) → i < a → times i (slots_from a n) ≡ 0
unfolding times
times-slots_from-lt i a zero h = refl
times-slots_from-lt i a (suc n) h = ground (arith, times-slots_from-lt i (a + 1) n)

times-slots_from-le : (i a n : ℕ) → times i (slots_from a n) ≤ 1
unfolding times
times-slots_from-le i a zero = omega arith
times-slots_from-le i a (suc n) = elim (Bool-cases (a == i)) [
  | inl e ↦ ground (arith, e, times-slots_from-lt i (a + 1) n)
  | inr e ↦ ground (arith, e, times-slots_from-le i (a + 1) n)
]

length-slots_from : (a n : ℕ) → length (slots_from a n) ≡ n
length-slots_from a zero = refl
length-slots_from a (suc n) = omega (arith, length-slots_from (a + 1) n)

-- The machines that may run: started or about to be, without `tart run` having ended or `tart stop`
-- or `tart delete` having succeeded, and not given up by a boot.
abbrev pub may_run : Vm → Bool
may_run v = not v.exited && not v.halted && not v.abandoned

unfoldable pub running : List Vm → List Vm
running [] = []
running (v ∷ vs) = let rest = running vs in if may_run v then v ∷ rest else rest

-- No two machines have one slot.
abbrev pub DistinctSlots : List Vm → Type 0
DistinctSlots [] = Unit
DistinctSlots (v ∷ vs) = All (λ w. (w.slot == v.slot) ≡ false) vs × DistinctSlots vs

-- A machine that may run holds its slot.
kept-holds : (v : Vm) → IsKept v → may_run v ≡ true → v.released ≡ false
kept-holds v (_, k) h = ground (arith, k, h)

running-All :
    (i : ℕ) (vs : List Vm)
    → All IsKept vs
    → tally i vs ≡ 0
    → All (λ w. (w.slot == i) ≡ false) (running vs)
unfolding running tally
running-All i [] h e = tt
running-All i (v ∷ vs) (k, h) e =
    let rest = running-All i vs h (ground (arith, e)) in
    elim (Bool-cases (may_run v)) [
      | inl m ↦ let held = kept-holds v k m in rw m (ground (arith, e, held), rest)
      | inr m ↦ rw m rest
    ]

running-DistinctSlots :
    (vs : List Vm) → All IsKept vs → ((i : ℕ) → tally i vs ≤ 1) → DistinctSlots (running vs)
unfolding running tally
running-DistinctSlots [] h le = tt
running-DistinctSlots (v ∷ vs) (k, h) le =
    let rest = running-DistinctSlots vs h (λ i. omega (arith, le i)) in
    elim (Bool-cases (may_run v)) [
      | inl m ↦
          let held = kept-holds v k m in
          rw m (running-All v.slot vs h (ground (arith, le v.slot, held)), rest)
      | inr m ↦ rw m rest
    ]

running-le : (vs : List Vm) → All IsKept vs → length (running vs) ≤ holders vs
unfolding running holders
running-le [] h = omega arith
running-le (v ∷ vs) (k, h) =
    let rest = running-le vs h in
    elim (Bool-cases (may_run v)) [
      | inl m ↦ let held = kept-holds v k m in rw m (ground (arith, held, rest))
      | inr m ↦ rw m (omega (arith, rest))
    ]

-- Whatever the providers of a process do with their machines and whatever `tart` answers: no two
-- machines that may run have one slot, and so one address, there are at most as many of them as the
-- host's limit (at least one), and no slot is lost: the free ones and those not given back add up to
-- the limit. A machine may run until `tart run` ends or `tart stop` or `tart delete` succeeds; one
-- that `bootVM` gave up, when its guest did not answer and neither command succeeded, is not counted.
pub Reach-DistinctSlots :
    (limit : ℕ) (c : Coordinator)
    → Reach (new_coordinator limit) c
    → let n = if ltb limit 1 then 1 else limit in
      DistinctSlots (running c.vms)
      × (length (running c.vms) ≤ n)
      × (length c.slots + holders c.vms ≡ n)
unfolding new_coordinator times tally holders
Reach-DistinctSlots limit c r =
    let n = if ltb limit 1 then 1 else limit in
    let (all, kept, whole) = Reach-Conserves (new_coordinator limit) c tt r in
    (
      running-DistinctSlots c.vms all (λ i. omega (arith, kept i, times-slots_from-le i 0 n)),
      omega (arith, running-le c.vms all, whole, length-slots_from 0 n),
      omega (arith, whole, length-slots_from 0 n),
    )
