-- ===== src/Instances/Examples.antt =====
-- The life of two runners of one scale set.
use runscaler.Base.{
  ℕ, suc, ◌≤◌, ◌<◌, ◌*◌, ◌^◌, ◌+◌, min, ◌≡◌, refl, ◌≢◌, ◌⊎◌, inl, inr, String, str_eq, true, false,
  Option, none, some, List, [], ◌∷◌, arith, leb,
}
use runscaler.Base.Assoc.{lookup, modify, Distinct}
use runscaler.Instances.{
  Instances, Instance, new_instances, find, busy, removing, job_completed, is_removing,
  is_unassigned_removal, no_job, JobRef,
}
use runscaler.Instances.Ops.{
  reserve, mark_ready, mark_busy, busy_phase, mark_done, refuses_done, count,
}
use runscaler.Instances.Ops.Claims.{
  planned, mark_idle_above_target, remove_first_idle, idle_for_removal, claim_removal, claimable,
  retry_removal, first_delay,
}
use runscaler.Instances.Step.{
  Op, reserves, gets_ready, starts_job, restores, is_done, scales_down, apply, run,
}
use runscaler.Instances.Valid.{run-Valid, Valid}
use runscaler.Instances.Phases.{apply-⟶, run-Gone, ◌⟶◌, Gone}
use runscaler.Instances.ScaleDown.{scale_down_lem, AnyIdle}
use runscaler.Instances.Removal.{claim_exclusive, retry_removal_lem}
use runscaler.Instances.Bound.{count-run-le, Guarded}

-- "r1" runs a job, "r2" is idle.
abbrev started : List Op
started =
    reserves "r1" 0
    ∷ reserves "r2" 1
    ∷ gets_ready "r1" "c1" 11
    ∷ gets_ready "r2" "c2" 12
    ∷ starts_job "r1" (record no_job { id = "j" })
    ∷ []

abbrev two_runners : Instances
two_runners = run new_instances started

abbrev found : Option Instance → Instance
found none = runscaler.Instances.provisioned 0
found (some i) = i

abbrev r1 : Instance
r1 = found (find two_runners "r1")

r1-found : find two_runners "r1" ≡ some r1
unfolding run apply reserve mark_ready mark_busy busy_phase lookup modify
r1-found = refl

run-Valid_example : Valid r1
run-Valid_example = run-Valid started "r1" r1 r1-found

two_runners-Distinct : Distinct two_runners.entries
unfolding run apply reserve mark_ready mark_busy busy_phase lookup modify
two_runners-Distinct = (refl, (refl, tt))

r1-busy : r1.phase ≡ busy
unfolding run apply reserve mark_ready mark_busy busy_phase lookup modify
r1-busy = refl

-- Its job completes.
abbrev completes : Op
completes = is_done "r1" job_completed refl "succeeded"

abbrev done : Instance
done = found (find (apply two_runners completes) "r1")

done-found : find (apply two_runners completes) "r1" ≡ some done
unfolding run apply reserve mark_ready mark_busy busy_phase mark_done refuses_done lookup modify
done-found = refl

apply-⟶_example : r1.phase ⟶ done.phase
apply-⟶_example =
    apply-⟶ two_runners completes "r1" r1 done two_runners-Distinct r1-found done-found

abbrev leaving : Instances
leaving = apply two_runners completes

leaving-Distinct : Distinct leaving.entries
unfolding run apply reserve mark_ready mark_busy busy_phase mark_done refuses_done lookup modify
leaving-Distinct = (refl, (refl, tt))

leaving-Gone : Gone (find leaving "r1")
unfolding run apply reserve mark_ready mark_busy busy_phase mark_done refuses_done lookup modify
leaving-Gone = (refl, inl refl)

-- A late job message and a restored removal come after it.
abbrev late : List Op
late =
    starts_job "r1" (record no_job { id = "j" })
    ∷ restores "r1" "c1"
    ∷ scales_down ("r1" ∷ "r2" ∷ []) 0
    ∷ []

run-Gone_example : Gone (find (run leaving late) "r1")
run-Gone_example = run-Gone leaving late "r1" leaving-Distinct (tt, (tt, (tt, tt))) leaving-Gone

abbrev names : List String
names = "r1" ∷ "r2" ∷ []

scale_down_lem_example :
    let r = mark_idle_above_target two_runners names 1 in
    ((r.1 ≡ true) × (planned two_runners ≡ suc (planned r.0)) × (1 ≤ planned r.0))
    ⊎ ((r.1 ≡ false) × (r.0 ≡ two_runners))
scale_down_lem_example = scale_down_lem two_runners names 1

spare : 1 < planned two_runners
unfolding run apply reserve mark_ready mark_busy busy_phase lookup modify
spare = omega arith

r2-idle : AnyIdle two_runners names
unfolding run apply reserve mark_ready mark_busy busy_phase lookup modify
r2-idle = inr (inl refl)

abbrev drained_r2 : Instance
drained_r2 = found (find (idle_for_removal two_runners).0 "r2")

drained-found : find (idle_for_removal two_runners).0 "r2" ≡ some drained_r2
unfolding run apply reserve mark_ready mark_busy busy_phase idle_for_removal lookup modify
drained-found = refl

abbrev taken : Option (Instances × String × String) → Instances
taken none = new_instances
taken (some (s, _, _)) = s

abbrev claimed : Instances
claimed = taken (claim_removal leaving names 100)

r1-claimed : claim_removal leaving names 100 ≡ some (claimed, "r1", "c1")
unfolding run apply reserve mark_ready mark_busy busy_phase mark_done refuses_done lookup modify
    claim_removal claimable
r1-claimed = refl

none_left : claim_removal claimed names 200 ≡ none
unfolding run apply reserve mark_ready mark_busy busy_phase mark_done refuses_done lookup modify
    claim_removal claimable
none_left = refl

-- Both runners are being removed: the second claim takes the other one.
abbrev both : Instances
both = (mark_idle_above_target leaving names 0).0

abbrev first : Instances
first = taken (claim_removal both names 100)

abbrev second : Instances
second = taken (claim_removal first names 100)

first-claimed : claim_removal both names 100 ≡ some (first, "r1", "c1")
unfolding run apply reserve mark_ready mark_busy busy_phase mark_done refuses_done lookup modify
    mark_idle_above_target remove_first_idle claim_removal claimable
first-claimed = refl

second-claimed : claim_removal first names 100 ≡ some (second, "r2", "c2")
unfolding run apply reserve mark_ready mark_busy busy_phase mark_done refuses_done lookup modify
    mark_idle_above_target remove_first_idle claim_removal claimable
second-claimed = refl

claim_exclusive_example : ◌≢◌ {A = String} "r1" "r2"
claim_exclusive_example =
    claim_exclusive both first second names names 100 100 "r1" "r2" "c1" "c2" first-claimed
      second-claimed

abbrev in_flight : Instance
in_flight = found (find claimed "r1")

in_flight-found : find claimed "r1" ≡ some in_flight
unfolding run apply reserve mark_ready mark_busy busy_phase mark_done refuses_done lookup modify
    claim_removal claimable
in_flight-found = refl

in_flight-removing : is_removing in_flight.phase ≡ true
unfolding run apply reserve mark_ready mark_busy busy_phase mark_done refuses_done lookup modify
    claim_removal claimable
in_flight-removing = refl

in_flight-marked : in_flight.cleanup_in_flight ≡ true
unfolding run apply reserve mark_ready mark_busy busy_phase mark_done refuses_done lookup modify
    claim_removal claimable
in_flight-marked = refl

in_flight-named : str_eq in_flight.id "" ≡ false
unfolding run apply reserve mark_ready mark_busy busy_phase mark_done refuses_done lookup modify
    claim_removal claimable
in_flight-named = refl

retry_removal_lem_example :
    (delay : ℕ) × (j : Instance) × ((retry_removal claimed "r1" in_flight.id 300).1 ≡ some delay)
    × (find (retry_removal claimed "r1" in_flight.id 300).0 "r1" ≡ some j)
    × ((later : ℕ) → claimable later j ≡ leb (300 + delay) later)
    × (delay ≡ first_delay * 2 ^ min in_flight.cleanup_attempts 4)
    × (first_delay ≤ delay)
    × (delay ≤ 80000000000)
retry_removal_lem_example =
    retry_removal_lem claimed "r1" 300 in_flight in_flight-found in_flight-removing in_flight-marked
      in_flight-named

none_yet : count new_instances ≤ 2
unfolding count
none_yet = omega arith

started-Guarded : Guarded 2 new_instances started
unfolding run apply reserve mark_ready mark_busy busy_phase mark_done refuses_done lookup modify
    count
started-Guarded = (
  λ k. omega arith,
  (
    λ k. omega arith,
    (λ k. absurd (ground arith), (λ k. absurd (ground arith), (λ k. absurd (ground arith), tt))),
  ),
)

count-run-le_example : count (run new_instances started) ≤ 2
count-run-le_example = count-run-le 2 new_instances started started-Guarded none_yet
