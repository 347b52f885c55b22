-- ===== src/Tart/Conserves.antt =====
-- Where the slots of internal/provider/tart.go are before and after each operation.
use runscaler.Base.{
  ℕ, ◌+◌, ◌≡◌, refl, ◌∙◌, subst, inl, inr, String, Bool, true, false, ◌||◌, ◌&&◌, not, Option, none,
  some, List, [], ◌∷◌, ◌++◌, arith, Bool-cases, ◌==◌, if◌then◌else◌, length, length-append, All,
}
use mathlib.Core.Option.{none-ne-some, some-injective}
use runscaler.Tart.{
  Coordinator, Vm, Stage, booting, ready, pooled, active, stopping, gone, Change, BootEnd, booted,
  not_started, no_answer, Answers, is_booting, is_stopping, update_vm, change, move, release_vm,
  booting_end, boot_end, destroyed, destroy_vm, ended, run_on, start_warm, has_exited, removed,
  removed_at, acquired,
}

unfoldable pub times : ℕ → List ℕ → ℕ
times i [] = 0
times i (j ∷ js) = (if j == i then 1 else 0) + times i js

-- Whether a machine holds the slot.
abbrev pub holds : ℕ → Vm → ℕ
holds i v = if not v.released && v.slot == i then 1 else 0

unfoldable pub tally : ℕ → List Vm → ℕ
tally i [] = 0
tally i (v ∷ vs) = holds i v + tally i vs

abbrev pub is_holder : Vm → ℕ
is_holder v = if v.released then 0 else 1

unfoldable pub holders : List Vm → ℕ
holders [] = 0
holders (v ∷ vs) = is_holder v + holders vs

-- A slot is kept while the machine boots, and given back only for a machine that does not run, or
-- was abandoned.
abbrev pub IsKept : Vm → Type 0
IsKept v =
    ((is_booting v.stage && v.released) ≡ false)
    × ((v.released && not v.exited && not v.halted && not v.abandoned) ≡ false)

-- A change gives back the slot of the machine, if it gives back one, and that once.
abbrev pub Keeps : Vm → Vm × List ℕ → Type 0
Keeps v (v', freed) =
    IsKept v'
    × ((i : ℕ) → times i freed + holds i v' ≡ holds i v)
    × (length freed + is_holder v' ≡ is_holder v)

release_vm-Keeps : (v : Vm) → IsKept (record v { released = true }) → Keeps v (release_vm v)
unfolding times
release_vm-Keeps v (b, r) =
    ((ground (arith, b, r), ground (arith, b, r)), λ i. ground (arith), ground (arith))

booting_end-Keeps :
    (e : BootEnd) (v : Vm)
    → IsKept v
    → Keeps v (if is_booting v.stage then booting_end e v else (v, []))
unfolding times
booting_end-Keeps booted v (b, r) =
    ((ground (arith, b, r), ground (arith, b, r)), λ i. ground (arith, b), ground (arith, b))
booting_end-Keeps not_started v (b, r) =
    ((ground (arith, b, r), ground (arith, b, r)), λ i. ground (arith, b), ground (arith, b))
booting_end-Keeps (no_answer stopped deleted) v (b, r) =
    ((ground (arith, b, r), ground (arith, b, r)), λ i. ground (arith, b), ground (arith, b))

move-Keeps : (s : Stage) (v : Vm) → is_booting s ≡ false → IsKept v → Keeps v (move s v)
unfolding times
move-Keeps s v e (b, r) = ((ground (arith, e), r), λ i. ground arith, ground arith)

destroyed-Keeps :
    (stopped deleted : Bool) (v : Vm) → IsKept v → Keeps v (destroyed stopped deleted v)
destroyed-Keeps stopped deleted v k = elim (Bool-cases (stopped || deleted || v.exited)) [
  | inl e ↦ rw e (
      release_vm-Keeps (record v { stage = gone; halted = v.halted || stopped || deleted })
        (refl, ground (arith, e)))
  | inr e ↦ rw e (move-Keeps stopping v refl k)
]

stopping-not_booting : (s : Stage) → is_stopping s ≡ true → (is_booting s && true) ≡ false
stopping-not_booting booting e = absurd (ground (arith, e))
stopping-not_booting ready e = refl
stopping-not_booting pooled e = refl
stopping-not_booting active e = refl
stopping-not_booting stopping e = refl
stopping-not_booting gone e = refl

ended-Keeps : (v : Vm) → IsKept v → Keeps v (ended v)
unfolding times
ended-Keeps v (b, r) = elim (Bool-cases (is_stopping v.stage)) [
  | inl e ↦
      rw e (
        release_vm-Keeps (record v { exited = true })
          (stopping-not_booting v.stage e, ground arith))
  | inr e ↦ rw e ((b, ground arith), λ i. ground arith, ground arith)
]

removed-Keeps : (stopped : Bool) (v : Vm) → IsKept v → Keeps v (removed stopped v)
unfolding times
removed-Keeps stopped v k = elim (Bool-cases (stopped || v.exited)) [
  | inl e ↦ rw e (
      release_vm-Keeps (record v { stage = gone; halted = v.halted || stopped })
        (refl, ground (arith, e)))
  | inr e ↦ rw e (k, λ i. ground arith, ground arith)
]

-- An operation keeps every slot where it is, or moves it.
abbrev pub Conserves : Coordinator → Coordinator → Type 0
Conserves c d =
    All IsKept d.vms
    × ((i : ℕ) → times i d.slots + tally i d.vms ≡ times i c.slots + tally i c.vms)
    × (length d.slots + holders d.vms ≡ length c.slots + holders c.vms)

times-append : (i : ℕ) (js ks : List ℕ) → times i (js ++ ks) ≡ times i js + times i ks
unfolding times
times-append i [] ks = omega arith
times-append i (j ∷ js) ks = ground (arith, times-append i js ks)

-- The machines after a change of one of them, and the slots that it gives back.
abbrev pub Updates : List Vm → List Vm × List ℕ → Type 0
Updates vs (vs', freed) =
    All IsKept vs'
    × ((i : ℕ) → times i freed + tally i vs' ≡ tally i vs)
    × (length freed + holders vs' ≡ holders vs)

update_vm-Updates :
    (f : Change)
    → ((v : Vm) → IsKept v → Keeps v (f v))
    → (id : ℕ) (vs : List Vm) → All IsKept vs
    → Updates vs (update_vm id f vs)
unfolding update_vm times tally holders
update_vm-Updates f keeps id [] h = (tt, λ i. omega arith, omega arith)
update_vm-Updates f keeps id (v ∷ vs) (k, h) =
    let (kept, one, whole) = keeps v k in
    let (all, more, wholes) = update_vm-Updates f keeps id vs h in
    elim (Bool-cases (v.id == id)) [
      | inl e ↦ rw e ((kept, h), λ i. omega (arith, one i), omega (arith, whole))
      | inr e ↦ rw e ((k, all), λ i. omega (arith, more i), omega (arith, wholes))
    ]

change-Conserves :
    (f : Change)
    → ((v : Vm) → IsKept v → Keeps v (f v))
    → (c : Coordinator) (id : ℕ) → All IsKept c.vms
    → Conserves c (change c id f)
unfolding change
change-Conserves f keeps c id h =
    let (all, more, wholes) = update_vm-Updates f keeps id c.vms h in
    let freed = (update_vm id f c.vms).1 in
    (
      all,
      λ i. omega (arith, more i, times-append i c.slots freed),
      omega (arith, wholes, length-append c.slots freed),
    )

pub same-Conserves : (c : Coordinator) → All IsKept c.vms → Conserves c c
same-Conserves c h = (h, λ i. refl, refl)

pub Conserves-trans : (c d e : Coordinator) → Conserves c d → Conserves d e → Conserves c e
Conserves-trans c d e (_, p, q) (h, p', q') = (h, λ i. p' i ∙ p i, q' ∙ q)

module _ (c : Coordinator) (h : All IsKept c.vms) where
  pub boot_end-Conserves : (id : ℕ) (e : BootEnd) → Conserves c (boot_end c id e)
  unfolding boot_end
  boot_end-Conserves id e =
      change-Conserves (λ v. if is_booting v.stage then booting_end e v else (v, []))
        (booting_end-Keeps e) c id h

  pub move-Conserves :
      (id : ℕ) (s : Stage) → is_booting s ≡ false → Conserves c (change c id (move s))
  move-Conserves id s e = change-Conserves (move s) (λ v k. move-Keeps s v e k) c id h

  pub destroy_vm-Conserves :
      (id : ℕ) (stopped deleted : Bool) → Conserves c (destroy_vm c id stopped deleted)
  unfolding destroy_vm
  destroy_vm-Conserves id stopped deleted =
      change-Conserves (destroyed stopped deleted) (destroyed-Keeps stopped deleted) c id h

  pub ended-Conserves : (id : ℕ) → Conserves c (change c id ended)
  ended-Conserves id = change-Conserves ended ended-Keeps c id h

  pub removed_at-Conserves : (stopped : Bool) (o : Option Vm) → Conserves c (removed_at c stopped o)
  removed_at-Conserves stopped none = same-Conserves c h
  removed_at-Conserves stopped (some v) =
      change-Conserves (removed stopped) (removed-Keeps stopped) c v.id h

  pub run_on-Conserves : (v : Vm) (a : Answers) → Conserves c (run_on c v a).0
  unfolding run_on
  run_on-Conserves v a = elim (Bool-cases a.runner_started) [
    | inl e ↦ rw e (move-Conserves v.id active refl)
    | inr e ↦ rw e (destroy_vm-Conserves v.id a.stopped a.deleted)
  ]

  pub acquired-Conserves :
      (name : String) (id : ℕ) (slots : List ℕ) (d : Coordinator)
      → acquired name c.vms id slots ≡ some d
      → Conserves (record c { slots = slots }) d
  unfolding times tally holders
  acquired-Conserves name id [] d e = absurd (none-ne-some d e)
  acquired-Conserves name id (i ∷ rest) d e =
      subst (Conserves (record c { slots = i ∷ rest })) (some-injective _ _ e)
        (((refl, refl), h), λ j. ground arith, ground arith)

pub start_warm-Conserves :
    (vs : List (Vm × Answers)) (c : Coordinator)
    → All IsKept c.vms
    → Conserves c (start_warm c vs).0
unfolding start_warm
start_warm-Conserves [] c h = same-Conserves c h
start_warm-Conserves ((v, a) ∷ vs) c h =
    let d = destroy_vm c v.id a.stopped a.deleted in
    let one = destroy_vm-Conserves c h v.id a.stopped a.deleted in
    elim (Bool-cases (has_exited c v.id)) [
      | inl e ↦ rw e (Conserves-trans c d (start_warm d vs).0 one (start_warm-Conserves vs d one.0))
      | inr e ↦ rw e (run_on-Conserves c h v a)
    ]
