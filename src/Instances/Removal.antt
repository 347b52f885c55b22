-- ===== src/Instances/Removal.antt =====
-- The cleanup queue of internal/controller/state.go: who is claimed, and the delay before a failed
-- cleanup is tried again.
use runscaler.Base.{
  ℕ, zero, suc, ◌+◌, ◌*◌, ◌^◌, ◌≤◌, min, ◌≡◌, refl, ap, subst, inl, inr, ◌≢◌, String, str_eq,
  eq_refl, true, false, Option, none, some, List, [], ◌∷◌, arith, leb, Bool-cases, Option-cases,
  All,
}
use native.Mathlib.Nat.{pow-suc}
use native.Mathlib.Numerals.{add-one}
use runscaler.Base.Assoc.{lookup-modify}
use runscaler.Instances.{Instances, Instance, find, put, is_removing}
use runscaler.Instances.Ops.Claims.{
  claim_removal, claim_at, claimable, retry_removal, retry_removal_at, doubled, cleanup_delay,
  first_delay,
}

find-put_self :
    (s : Instances) (name : String) (i j : Instance)
    → find s name ≡ some i
    → find (put s name j) name ≡ some j
find-put_self s name i j e =
    rw (lookup-modify name name (λ _. j) s.entries, eq_refl name) (ground arith)

-- What a claim is, of the runner `i`.
abbrev Claims : Instances → ℕ → Instances × String × String → Type 0
Claims s now (t, name, id) =
    (i : Instance) × (find s name ≡ some i)
    × (claimable now i ≡ true)
    × (i.id ≡ id)
    × (find t name ≡ some (record i { cleanup_in_flight = true }))

Claims-of_some :
    (s : Instances) (now : ℕ) (p q : Instances × String × String)
    → some p ≡ some q
    → Claims s now p
    → Claims s now q
Claims-of_some s now p q e c = subst (Claims s now) {x = p} {y = q} (cc) c

-- The runner claimed is eligible (it is being removed, has an instance, is claimed by nobody else,
-- and its deadline has passed), and from now on it is marked as claimed.
claim_removal_sound :
    (s t : Instances) (names : List String) (now : ℕ) (name id : String)
    → claim_removal s names now ≡ some (t, name, id)
    → (i : Instance) × (find s name ≡ some i)
      × (claimable now i ≡ true)
      × (i.id ≡ id)
      × (find t name ≡ some (record i { cleanup_in_flight = true }))
unfolding claim_removal
claim_removal_sound s t [] now name id h = ground arith
claim_removal_sound s t (k ∷ names) now name id h = elim (Option-cases (find s k)) [
  | inl e ↦ claim_removal_sound s t names now name id (rw (e, claim_at) at h)
  | inr (i, e) ↦ elim (Bool-cases (claimable now i)) [
    | inr no_claim ↦ claim_removal_sound s t names now name id (rw (e, claim_at, no_claim) at h)
    | inl claim ↦
        Claims-of_some s now _ (t, name, id) (rw (e, claim_at, claim) at h)
          (i, e, claim, refl, find-put_self s k i _ e)
  ]
]

-- There is no such runner, or a cleanup may not claim it now.
abbrev pub NotClaimable : ℕ → Option Instance → Type 0
NotClaimable now none = Unit
NotClaimable now (some i) = claimable now i ≡ false

-- Where nothing is claimed, no runner visited was eligible.
claim_removal_complete :
    (s : Instances) (names : List String) (now : ℕ)
    → claim_removal s names now ≡ none
    → All (λ name. NotClaimable now (find s name)) names
unfolding claim_removal
claim_removal_complete s [] now h = tt
claim_removal_complete s (k ∷ names) now h = elim (Option-cases (find s k)) [
  | inl e ↦ (rw e tt, claim_removal_complete s names now (rw (e, claim_at) at h))
  | inr (j, e) ↦ elim (Bool-cases (claimable now j)) [
    | inr no_claim ↦
        (rw e no_claim, claim_removal_complete s names now (rw (e, claim_at, no_claim) at h))
    | inl claim ↦ absurd (ground arith)
  ]
]

-- A claim that follows a claim, at whatever time, is of another runner: one whose cleanup is in flight
-- is not claimed again.
pub claim_exclusive :
    (s t u : Instances) (names names' : List String) (now later : ℕ) (name name' id id' : String)
    → claim_removal s names now ≡ some (t, name, id)
    → claim_removal t names' later ≡ some (u, name', id')
    → name ≢ name'
unfolding claimable
claim_exclusive s t u names names' now later name name' id id' h k same =
    let (i, _, _, _, marked) = claim_removal_sound s t names now name id h in
    let (j, found, ok, _, _) = claim_removal_sound t u names' later name' id' k in
    let again = subst (λ n. find t n ≡ some (record i { cleanup_in_flight = true })) same marked in
    ground (arith, again, found, ok)

doubled_lem : (n delay : ℕ) → doubled n delay ≡ delay * 2 ^ n
unfolding doubled
doubled_lem zero delay = omega arith
doubled_lem (suc n) delay =
    omega (arith, doubled_lem n (delay * 2), ap (λ (t : ℕ). delay * t) (pow-suc 2 n))

-- The delay before attempt k + 1 is five seconds, doubled at each failure up to four times.
cleanup_delay_lem : (k : ℕ) → cleanup_delay (suc k) ≡ first_delay * 2 ^ min k 4
unfolding cleanup_delay
cleanup_delay_lem k = rw doubled_lem (ap (λ n. first_delay * 2 ^ min n 4) (omega arith))

cleanup_delay_bounds :
    (k : ℕ) → (first_delay ≤ cleanup_delay (suc k)) × (cleanup_delay (suc k) ≤ 80000000000)
cleanup_delay_bounds k = rw (cleanup_delay_lem k) (small (min k 4) (omega arith))
  where
    small :
        (n : ℕ) → n ≤ 4 → (first_delay ≤ first_delay * 2 ^ n) × (first_delay * 2 ^ n ≤ 80000000000)
    small zero h = omega arith
    small (suc zero) h = omega arith
    small (suc (suc zero)) h = omega arith
    small (suc (suc (suc zero))) h = omega arith
    small (suc (suc (suc (suc zero)))) h = omega arith
    small (suc (suc (suc (suc (suc n))))) h = absurd (omega arith)

-- A failed cleanup (of a runner that has an instance and is in flight) ends the claim, and the
-- runner is eligible again exactly from the deadline on. The delay is five seconds times two to the
-- number of failures before, at most four counted; so it lies between 5 and 80 seconds.
pub retry_removal_lem :
    (s : Instances) (name : String) (now : ℕ) (i : Instance)
    → find s name ≡ some i
    → is_removing i.phase ≡ true
    → i.cleanup_in_flight ≡ true
    → str_eq i.id "" ≡ false
    → (delay : ℕ) × (j : Instance) × ((retry_removal s name i.id now).1 ≡ some delay)
      × (find (retry_removal s name i.id now).0 name ≡ some j)
      × ((later : ℕ) → claimable later j ≡ leb (now + delay) later)
      × (delay ≡ first_delay * 2 ^ min i.cleanup_attempts 4)
      × (first_delay ≤ delay)
      × (delay ≤ 80000000000)
unfolding retry_removal claimable
retry_removal_lem s name now i e p f n =
    let delay = cleanup_delay (i.cleanup_attempts + 1) in
    let j : Instance = record i {
      cleanup_in_flight = false;
      cleanup_attempts = i.cleanup_attempts + 1;
      cleanup_retry_at = now + delay;
    } in
    let same_id = eq_refl i.id in
    (
      delay,
      j,
      rw (e, retry_removal_at) (rw (p, same_id, f)),
      rw (e, retry_removal_at) (rw (p, same_id, f) (find-put_self s name i j e)),
      λ later. rw (p, n),
      rw add-one (cleanup_delay_lem i.cleanup_attempts),
      rw add-one ((cleanup_delay_bounds i.cleanup_attempts).0),
      rw add-one ((cleanup_delay_bounds i.cleanup_attempts).1),
    )
