-- ===== src/Tart.antt =====
-- internal/provider/tart.go: the host's slots for virtual machines, which all Tart providers of the
-- process share, and the machines that hold one. What the `tart` program answers is an argument.
-- A machine stays in the list for good, under a number: an operation on it is one step of the goroutine
-- that has it. `tart stop` and `tart delete` that succeed are taken to leave no machine running, as
-- the code takes it; the model keeps what it knows of a machine apart from its slot.
pub mod Conserves
pub mod Slots
pub mod Boot
pub mod Network
pub mod Mtu
mod Examples
use runscaler.Base.{
  ℕ, zero, suc, ◌+◌, String, str_eq, Bool, true, false, ◌&&◌, ◌||◌, not, Option, none, some, List,
  [], ◌∷◌, ◌++◌, ltb, ◌==◌, if◌then◌else◌,
}
use runscaler.Base.Int.{ℤ, pos, ltb_ℤ}

-- Where a machine is: in `bootVM`, ready in the hands of a goroutine, in the pool, running a job
-- (`activeVMs`), in the goroutine that waits for its end after a cleanup that failed, or given up.
pub data Stage : Type 0 where
  booting ready pooled active stopping gone : Stage

-- `warmVM`, from the start of `bootVM` on; `exited` is the closed channel `done`, and `released` that
-- its slot was given back.
pub record Vm : Type 0 where
  pub id : ℕ
  pub name : String
  pub slot : ℕ
  pub stage : Stage
  pub exited : Bool
  pub released : Bool
  -- It never ran, or `tart stop` or `tart delete` of it succeeded.
  pub halted : Bool
  -- `bootVM` gave it up, and neither `tart stop` nor `tart delete` succeeded.
  pub abandoned : Bool

pub record Coordinator : Type 0 where
  pub slots : List ℕ  -- the free ones, in the channel's order
  pub vms : List Vm
  pub next_id : ℕ

abbrev pub slots_from : ℕ → ℕ → List ℕ
slots_from i zero = []
slots_from i (suc n) = i ∷ slots_from (i + 1) n

-- `NewTartHostCoordinator`.
unfoldable pub new_coordinator : ℕ → Coordinator
new_coordinator limit = record {
  slots = slots_from 0 (if ltb limit 1 then 1 else limit);
  vms = [];
  next_id = 0;
}

abbrev pub is_booting : Stage → Bool
is_booting booting = true
is_booting _ = false

abbrev pub is_active : Stage → Bool
is_active active = true
is_active _ = false

abbrev pub is_stopping : Stage → Bool
is_stopping stopping = true
is_stopping _ = false

abbrev pub new_vm : ℕ → String → ℕ → Vm
new_vm id name slot = record {
  id = id;
  name = name;
  slot = slot;
  stage = booting;
  exited = false;
  released = false;
  halted = false;
  abandoned = false;
}

abbrev pub acquired : String → List Vm → ℕ → List ℕ → Option Coordinator
acquired name vms id [] = none
acquired name vms id (i ∷ rest) =
    some (record { slots = rest; vms = new_vm id name i ∷ vms; next_id = id + 1 })

-- The first step of `bootVM`: it waits while no slot is free, and `none` says that it does.
unfoldable pub acquire : Coordinator → String → Option Coordinator
acquire c name = acquired name c.vms c.next_id c.slots

-- What a step makes of a machine, and the slots that it gives back.
abbrev pub Change : Type 0
Change = Vm → Vm × List ℕ

unfoldable pub update_vm : ℕ → Change → List Vm → List Vm × List ℕ
update_vm id f [] = ([], [])
update_vm id f (v ∷ vs) =
    let (v', freed) = f v in
    let (vs', later) = update_vm id f vs in
    if v.id == id then (v' ∷ vs, freed) else (v ∷ vs', later)

unfoldable pub change : Coordinator → ℕ → Change → Coordinator
unfolding update_vm
change c id f =
    let (vms, freed) = update_vm id f c.vms in record c { slots = c.slots ++ freed; vms = vms }

abbrev pub move : Stage → Change
move s v = (record v { stage = s }, [])

-- `releaseVM`, with its `sync.Once`.
abbrev pub release_vm : Change
release_vm v = if v.released then (v, []) else (record v { released = true }, v.slot ∷ [])

-- How a boot ends: with a machine; before `tart run`; or after it, where the guest does not answer
-- and the two commands are given.
pub data BootEnd : Type 0 where
  booted not_started : BootEnd
  no_answer : Bool → Bool → BootEnd

-- The end of `bootVM`: the slot goes back on every error, and with no `Once`.
abbrev pub booting_end : BootEnd → Change
booting_end booted v = move ready v
booting_end not_started v = (record v { stage = gone; released = true; halted = true }, v.slot ∷ [])
booting_end (no_answer stopped deleted) v = (
  record v {
    stage = gone;
    released = true;
    halted = stopped || deleted;
    abandoned = not (stopped || deleted);
  },
  v.slot ∷ [],
)

-- A machine is booting until its `bootVM` has ended, which happens once.
unfoldable pub boot_end : Coordinator → ℕ → BootEnd → Coordinator
unfolding change
boot_end c id e = change c id (λ v. if is_booting v.stage then booting_end e v else (v, []))

abbrev pub find_vm : (Vm → Bool) → List Vm → Option Vm
find_vm f [] = none
find_vm f (v ∷ vs) = if f v then some v else find_vm f vs

-- Where neither `tart stop` nor `tart delete` succeeds and the machine still runs, the slot is kept
-- until it ends.
abbrev pub destroyed : Bool → Bool → Change
destroyed stopped deleted v =
    if stopped || deleted || v.exited
    then release_vm (record v { stage = gone; halted = v.halted || stopped || deleted })
    else move stopping v

-- `destroyVM`.
unfoldable pub destroy_vm : Coordinator → ℕ → Bool → Bool → Coordinator
unfolding change
destroy_vm c id stopped deleted = change c id (destroyed stopped deleted)

abbrev pub ended : Change
ended v =
    let v' = record v { exited = true } in if is_stopping v.stage then release_vm v' else (v', [])

-- `tart run` of a machine ends, and with it the wait in `destroyVM`.
unfoldable pub vm_exits : Coordinator → ℕ → Coordinator
unfolding change
vm_exits c id = change c id ended

-- `fillPool` puts a machine that is ready into the pool.
unfoldable pub pool_vm : Coordinator → ℕ → Coordinator
unfolding change
pool_vm c id = change c id (move pooled)

-- What `tart` answers while a runner is started on a machine.
pub record Answers : Type 0 where
  pub runner_started : Bool
  pub stopped : Bool
  pub deleted : Bool

-- `runRunner` on a machine in hand and what follows it, warm and cold: the name returned.
unfoldable pub run_on : Coordinator → Vm → Answers → Coordinator × Option String
unfolding destroy_vm
run_on c v a =
    if a.runner_started
    then (change c v.id (move active), some v.name)
    else (destroy_vm c v.id a.stopped a.deleted, none)

abbrev pub has_exited : Coordinator → ℕ → Bool
has_exited c id = elim (find_vm (λ v. v.id == id) c.vms) [ none ↦ true | some v ↦ v.exited ]

-- The loop of `StartInstance` over the pool, whose machines come in the order of the list:
-- those that have ended are discarded. `none` waits for the pool.
unfoldable pub start_warm : Coordinator → List (Vm × Answers) → Coordinator × Option (Option String)
unfolding destroy_vm run_on
start_warm c [] = (c, none)
start_warm c ((v, a) ∷ vs) =
    let later = start_warm (destroy_vm c v.id a.stopped a.deleted) vs in
    if has_exited c v.id then later else let (c', r) = run_on c v a in (c', some r)

abbrev pub removed : Bool → Change
removed stopped v =
    if stopped || v.exited
    then release_vm (record v { stage = gone; halted = v.halted || stopped })
    else (v, [])

abbrev pub removed_at : Coordinator → Bool → Option Vm → Coordinator
removed_at c stopped none = c
removed_at c stopped (some v) = change c v.id (removed stopped)

-- `RemoveInstance`: `absent` is an error of `tart delete` that says there is no such machine. The
-- second result is whether an error is returned.
unfoldable pub remove_instance : Coordinator → String → Bool → Bool → Bool → Coordinator × Bool
unfolding change
remove_instance c name stopped deleted absent = (
  removed_at c (stopped || deleted || absent)
      (find_vm (λ v. is_active v.stage && str_eq v.name name) c.vms),
  not (deleted || absent),
)
