-- ===== src/Capacity/Wiring.antt =====
-- How the broker is set up: `EffectiveConcurrent` and `ValidateConcurrent` of
-- internal/config/config.go, its checks of min-runners and max-runners, and the loop of
-- cmd/runner/main.go that registers every scale set. The numbers of a scale set are those of a
-- configuration that `Validate` has read, so a negative minimum is out. The name of an allocator,
-- which `fmt` makes of an index and a name, is a parameter.
use runscaler.Base.{
  ℕ, ◌+◌, ◌≤◌, ◌<◌, ◌≡◌, refl, sym, ap, subst, ◌∙◌, inl, inr, String, str_eq, eq_iff, Bool, true,
  false, ◌&&◌, ◌||◌, Option, none, some, List, [], ◌∷◌, ◌++◌, arith, ◌==◌, ltb, leb, if◌then◌else◌,
  Bool-cases, All, All-mono, All-append,
}
use runscaler.Base.Assoc.{lookup}
use runscaler.Base.Int.{ℤ, pos, negsuc, pos_part}
use runscaler.Capacity.{
  Broker, Group, new_broker, register, registered, acquire, below_minimum, leased,
}
use runscaler.Capacity.Reach.{Reach, here, next, registers, Run}
use runscaler.Capacity.Reservation.{Reserved, deficits}
use runscaler.Capacity.Guarantee.{minimum_guaranteed}

pub record ScaleSet : Type 0 where
  pub name : String
  pub min_runners : ℕ
  pub max_runners : ℕ

unfoldable pub runners_are_valid : ScaleSet → Bool
runners_are_valid s = leb 1 s.max_runners && leb s.min_runners s.max_runners

abbrev pub total_min : List ScaleSet → ℕ
total_min [] = 0
total_min (s ∷ ss) = s.min_runners + total_min ss

abbrev pub total_max : List ScaleSet → ℕ
total_max [] = 0
total_max (s ∷ ss) = s.max_runners + total_max ss

unfoldable pub effective_concurrent : ℤ → List ScaleSet → ℤ
effective_concurrent concurrent sets =
    if ltb 0 (pos_part concurrent) then concurrent else pos (total_max sets)

unfoldable pub validate_concurrent : ℤ → List ScaleSet → Bool
validate_concurrent (pos n) sets = n == 0 || leb (total_min sets) n
validate_concurrent (negsuc n) sets = false

total_min-le :
    (sets : List ScaleSet)
    → All (λ s. runners_are_valid s ≡ true) sets
    → total_min sets ≤ total_max sets
unfolding runners_are_valid
total_min-le [] h = omega arith
total_min-le (s ∷ ss) (ok, h) = ground (arith, total_min-le ss h)

limit-enough :
    (concurrent : ℤ) (sets : List ScaleSet)
    → validate_concurrent concurrent sets ≡ true
    → All (λ s. runners_are_valid s ≡ true) sets
    → total_min sets ≤ pos_part (effective_concurrent concurrent sets)
unfolding validate_concurrent effective_concurrent
limit-enough (pos n) sets ok h = ground (arith, total_min-le sets h)
limit-enough (negsuc n) sets ok h = absurd (ground arith)

module _ (allocator_name : ℕ → String → String) where
  -- `none` is the panic of `Register`.
  unfoldable pub register_all : ℕ → List ScaleSet → Broker → Option Broker
  register_all i [] b = some b
  register_all i (s ∷ ss) b = elim (register b (allocator_name i s.name) (pos s.min_runners)) [
    | none ↦ none
    | some b' ↦ register_all (i + 1) ss b'
  ]

  unfoldable pub shared_broker : ℤ → List ScaleSet → Option Broker
  shared_broker concurrent sets =
      register_all 0 sets (new_broker (effective_concurrent concurrent sets))

  -- The groups registered are those of smaller indices.
  abbrev Earlier : ℕ → String × Group → Type 0
  Earlier i (k, g) = (j : ℕ) × (a : String) × (j < i) × (k ≡ allocator_name j a)

  -- The broker after the registrations up to index `i`, whose minimums add up to `total`.
  record Wired (limit : ℤ) (i total : ℕ) (b : Broker) : Type 0 where
    reached : Reach (new_broker limit) b
    queue : b.waiters ≡ []
    unused : b.in_use ≡ 0
    limited : b.limit ≡ limit
    due : deficits b.groups ≡ total
    earlier : All (Earlier i) b.groups

  deficits-append :
      (k : String) (n : ℕ) (gs : List (String × Group))
      → deficits (gs ++ (k, record { minimum = n; in_use = 0 }) ∷ []) ≡ deficits gs + n
  deficits-append k n [] = omega arith
  deficits-append k n ((j, g) ∷ gs) = omega (arith, deficits-append k n gs)

  module _
      (unique : (i j : ℕ) (a b : String) → allocator_name i a ≡ allocator_name j b → i ≡ j) where
    fresh :
        (i : ℕ) (a : String) (gs : List (String × Group))
        → All (Earlier i) gs
        → lookup (allocator_name i a) gs ≡ none
    unfolding lookup
    fresh i a [] h = refl
    fresh i a ((k, g) ∷ gs) ((j, c, below, e), h) =
        elim (Bool-cases (str_eq k (allocator_name i a))) [
          | inr other ↦ rw other (fresh i a gs h)
          | inl hit ↦
              absurd (
                omega
                  (arith, below, unique j i c a (sym e ∙ (eq_iff k (allocator_name i a)).0 hit)))
        ]

    register-Wired :
        (limit : ℤ) (i total : ℕ) (b : Broker) (s : ScaleSet)
        → Wired limit i total b
        → let b' = registered b (allocator_name i s.name) (pos s.min_runners) in
          (register b (allocator_name i s.name) (pos s.min_runners) ≡ some b')
          × Wired limit (i + 1) (total + s.min_runners) b'
    unfolding register
    register-Wired limit i total b s v =
        let name = allocator_name i s.name in
        let b' = registered b name (pos s.min_runners) in
        let new = fresh i s.name b.groups v.earlier in
        let ok : register b name (pos s.min_runners) ≡ some b' = rw new refl in
        (
          ok,
          record {
            reached = next v.reached (registers b b' name (pos s.min_runners) ok);
            queue = v.queue;
            unused = v.unused;
            limited = v.limited;
            due = deficits-append name s.min_runners b.groups ∙ ap (λ n. n + s.min_runners) v.due;
            earlier =
                All-append (Earlier (i + 1)) b.groups _
                  (All-mono (Earlier i) (Earlier (i + 1)) b.groups
                    (λ _ (j, c, l, e). (j, c, omega (arith, l), e)) v.earlier)
                  ((i, s.name, omega arith, refl), tt);
          },
        )

    register_all-step :
        (i : ℕ) (s : ScaleSet) (ss : List ScaleSet) (b b' : Broker)
        → register b (allocator_name i s.name) (pos s.min_runners) ≡ some b'
        → register_all i (s ∷ ss) b ≡ register_all (i + 1) ss b'
    unfolding register_all
    register_all-step i s ss b b' e = rw (register_all, e) refl

    register_all-Wired :
        (limit : ℤ) (sets : List ScaleSet) (i total : ℕ) (b : Broker)
        → Wired limit i total b
        → (b' : Broker) × (j : ℕ) × (register_all i sets b ≡ some b')
          × Wired limit j (total + total_min sets) b'
    unfolding register_all
    register_all-Wired limit [] i total b v =
        (b, i, refl, subst (λ n. Wired limit i n b) (omega arith) v)
    register_all-Wired limit (s ∷ sets) i total b v =
        let (ok, v') = register-Wired limit i total b s v in
        let (b'', j, done, w) =
          register_all-Wired limit sets (i + 1) (total + s.min_runners) _ v' in
        (
          b'',
          j,
          register_all-step i s sets b _ ok ∙ done,
          subst (λ n. Wired limit j n b'') (omega arith) w,
        )

    new-Wired : (limit : ℤ) → Wired limit 0 0 (new_broker limit)
    unfolding new_broker
    new-Wired limit = record {
      reached = here;
      queue = refl;
      unused = refl;
      limited = refl;
      due = refl;
      earlier = tt;
    }

    -- A valid configuration sets up a broker without a panic, in which nobody waits and the minimums
    -- fit into the limit. (Allocators of different indices have different names.)
    shared_broker-Reserved :
        (concurrent : ℤ) (sets : List ScaleSet)
        → validate_concurrent concurrent sets ≡ true
        → All (λ s. runners_are_valid s ≡ true) sets
        → (b : Broker) × (shared_broker concurrent sets ≡ some b)
          × Reach (new_broker (effective_concurrent concurrent sets)) b
          × (b.waiters ≡ [])
          × Reserved b
    unfolding shared_broker
    shared_broker-Reserved concurrent sets ok valid =
        let limit = effective_concurrent concurrent sets in
        let (b, j, done, w) =
          register_all-Wired limit sets 0 0 (new_broker limit) (new-Wired limit) in
        (
          b,
          done,
          w.reached,
          w.queue,
          λ h.
              let l : pos_part b.limit ≡ pos_part limit = ap pos_part w.limited in
              let k = limit-enough concurrent sets ok valid in omega (arith, l, k, w.due, w.unused),
        )

    -- From a valid configuration on, whatever calls are made on the broker that it sets up, a request
    -- of a scale set below its minimum is granted at once.
    pub configured_minimum_guaranteed :
        (concurrent : ℤ) (sets : List ScaleSet) (b c : Broker) (name : String)
        → validate_concurrent concurrent sets ≡ true
        → All (λ s. runners_are_valid s ≡ true) sets
        → shared_broker concurrent sets ≡ some b
        → Run b c
        → below_minimum c name ≡ true
        → (acquire c false (some name)).1 ≡ leased c.next_ticket
    configured_minimum_guaranteed concurrent sets b c name ok valid set_up run below =
        let (b', set_up', reached, queue, reserved) =
          shared_broker-Reserved concurrent sets ok valid in
        let same : b' ≡ b = ground (arith, set_up, set_up') in
        minimum_guaranteed (effective_concurrent concurrent sets) b c name
          (subst (Reach (new_broker (effective_concurrent concurrent sets))) same reached)
          (subst (λ x. x.waiters ≡ []) same queue) (subst Reserved same reserved) run below
