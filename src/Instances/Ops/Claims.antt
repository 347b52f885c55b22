-- ===== src/Instances/Ops/Claims.antt =====
-- The methods of `instanceState` (internal/controller/state.go) that choose runners to remove, and
-- those that a cleanup calls.
use runscaler.Base.{
  ℕ, zero, suc, ◌+◌, ◌-◌, ◌*◌, min, String, str_eq, Bool, true, false, ◌&&◌, ◌||◌, not, Option,
  none, some, List, [], ◌∷◌, leb, if◌then◌else◌,
}
use runscaler.Base.Assoc.{modify, delete}
use runscaler.Instances.{
  Instances, Instance, removing, Reason, scaled_down, drain, is_provisioning, is_idle, is_removing,
  JobRef, find, put,
}

abbrev pub not_removing : Instance → Bool
not_removing i = not (is_removing i.phase)

-- The runners that are planned to stay.
abbrev pub planned_in : List (String × Instance) → ℕ
planned_in [] = 0
planned_in ((_, i) ∷ m) = (if not_removing i then 1 else 0) + planned_in m

abbrev pub planned : Instances → ℕ
planned s = planned_in s.entries

abbrev pub idle_at : Option Instance → Bool
idle_at none = false
idle_at (some i) = is_idle i.phase

abbrev pub scaled_down_instance : Instance → Instance
scaled_down_instance i = record i { phase = removing; remove_reason = scaled_down }

-- The second loop of `markIdleAboveTarget`, over the names as Go visits them.
unfoldable pub remove_first_idle : Instances → List String → Instances × Bool
remove_first_idle s [] = (s, false)
remove_first_idle s (name ∷ names) =
    let rest = remove_first_idle s names in
    if idle_at (find s name)
    then (record s { entries = modify name scaled_down_instance s.entries }, true)
    else rest

unfoldable pub mark_idle_above_target : Instances → List String → ℕ → Instances × Bool
mark_idle_above_target s names target =
    if leb (planned s) target then (s, false) else remove_first_idle s names

abbrev pub drains : Instance → Bool
drains i = is_idle i.phase || is_provisioning i.phase

abbrev pub drained : Instance → Instance
drained i = if drains i then record i { phase = removing; remove_reason = drain } else i

abbrev pub drain_all : List (String × Instance) → List (String × Instance)
drain_all [] = []
drain_all ((name, i) ∷ m) = (name, drained i) ∷ drain_all m

abbrev pub drained_ids : List (String × Instance) → List (String × String)
drained_ids [] = []
drained_ids ((name, i) ∷ m) = if drains i then (name, i.id) ∷ drained_ids m else drained_ids m

unfoldable pub idle_for_removal : Instances → Instances × List (String × String)
idle_for_removal s = (record s { entries = drain_all s.entries }, drained_ids s.entries)

-- The test of `claimRemoval`'s loop.
unfoldable pub claimable : ℕ → Instance → Bool
claimable now i =
    is_removing i.phase
    && not (str_eq i.id "")
    && not i.cleanup_in_flight
    && leb i.cleanup_retry_at now

abbrev pub claim_at :
    Instances → ℕ → String → Option Instance → Option (Instances × String × String)
claim_at s now name none = none
claim_at s now name (some i) =
    if claimable now i
    then some (put s name (record i { cleanup_in_flight = true }), name, i.id)
    else none

abbrev pub first_claim {ℓ} : {A : Type ℓ} → Option A → Option A → Option A
first_claim (some a) o = some a
first_claim none o = o

-- `none` where no runner is eligible.
unfoldable pub claim_removal : Instances → List String → ℕ → Option (Instances × String × String)
claim_removal s [] now = none
claim_removal s (name ∷ names) now =
    first_claim (claim_at s now name (find s name)) (claim_removal s names now)

-- Five seconds.
abbrev pub first_delay : ℕ
first_delay = 5000000000

unfoldable pub doubled : ℕ → ℕ → ℕ
doubled zero delay = delay
doubled (suc n) delay = doubled n (delay * 2)

unfoldable pub cleanup_delay : ℕ → ℕ
cleanup_delay attempts = doubled (min (attempts - 1) 4) first_delay

abbrev pub retry_removal_at :
    Instances → String → String → ℕ → Option Instance → Instances × Option ℕ
retry_removal_at s name id now none = (s, none)
retry_removal_at s name id now (some i) =
    if not (is_removing i.phase) || not (str_eq i.id id) || not i.cleanup_in_flight
    then (s, none)
    else let delay = cleanup_delay (i.cleanup_attempts + 1) in
      (
        put s name (record i {
          cleanup_in_flight = false;
          cleanup_attempts = i.cleanup_attempts + 1;
          cleanup_retry_at = now + delay;
        }),
        some delay,
      )

unfoldable pub retry_removal : Instances → String → String → ℕ → Instances × Option ℕ
retry_removal s name id now = retry_removal_at s name id now (find s name)

pub record Removed : Type 0 where
  pub lease : ℕ
  pub reason : Reason
  pub job : JobRef

abbrev pub finish_removal_at :
    Instances → String → String → Option Instance → Instances × Option Removed
finish_removal_at s name id none = (s, none)
finish_removal_at s name id (some i) =
    if not (is_removing i.phase) || not (str_eq i.id id) then (s, none) else (
      record s { entries = delete name s.entries },
      some (record { lease = i.lease; reason = i.remove_reason; job = i.job }),
    )

unfoldable pub finish_removal : Instances → String → String → Instances × Option Removed
finish_removal s name id = finish_removal_at s name id (find s name)

unfoldable pub detach_all : Instances → Instances × List (String × Instance)
detach_all s = (record s { entries = [] }, s.entries)
