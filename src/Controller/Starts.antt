-- ===== src/Controller/Starts.antt =====
-- A start that fails (`startInstanceWithLease` of internal/controller/controller.go).
use mathlib.Core.Option.{some-ne-none}
use runscaler.Capacity.Leases.{Spent, Issued, release-Spent_self}
use runscaler.Base.{
  ℕ, ◌≡◌, refl, sym, ap, subst, ◌∙◌, inl, inr, String, str_eq, Bool, true, ◌&&◌, ◌||◌, none, some,
  eq_refl, Option, Option-cases, List, [], ◌⊎◌, Bool-cases,
}
use runscaler.Base.Assoc.{
  Distinct, lookup-delete_self, lookup-modify, lookup-add, modify, add, modify-Distinct,
  add-Distinct,
}
use runscaler.Backoff.{Float}
use runscaler.Capacity.{release}
use runscaler.Instances.{
  Instance, Failure, Attempt, find, provisioned, jit_config_failed, provider_start_failed,
}
use runscaler.Instances.Ops.{fail_provision, has_work, reserve, set_attempt, set_jit}
use runscaler.Controller.{Controller, Call, release_lease}
use runscaler.Controller.Retry.{record_start_failure, record_start_attempt, disprovable}
use runscaler.Controller.Demand.{with_instances}
use runscaler.Controller.Start.{
  Starting, Started, not_started, Jit, fail_start, jit_generated, start_with_lease,
}

undone :
    (c : Controller) (g name : String) (lease : ℕ) (i : Instance)
    → c.group ≡ some g
    → Distinct c.instances.entries
    → find c.instances name ≡ some i
    → str_eq i.id "" ≡ true
    → let c' = release_lease (with_instances c (fail_provision c.instances name)) lease in
      (c'.broker ≡ release c.broker lease) × (find c'.instances name ≡ none)
unfolding fail_provision
undone c g name lease i grouped d there unset =
    rw (grouped, there, unset) (refl, lookup-delete_self name c.instances.entries d)

module _ (fl : Float) where
  open fl use {F}

  -- A failure is counted in the runtime only.
  record_start_failure-keeps :
      (c : Controller) (ended : Bool) (why : Failure) (a : Attempt) (x : F) (now : ℕ)
      → let c' = record_start_failure fl c ended why a x now in
        (c'.instances ≡ c.instances) × (c'.broker ≡ c.broker) × (c'.group ≡ c.group)
  unfolding record_start_failure
  record_start_failure-keeps c ended why a x now =
      elim (Bool-cases (ended || c.draining || (disprovable why && has_work c.instances a))) [
        | inl e ↦ rw e (refl, refl, refl)
        | inr e ↦ rw e (refl, refl, refl)
      ]

  -- The closure `fail`.
  fail_start_lem :
      (c : Controller) (g : String) (lease : ℕ) (e : Starting fl) (a : Attempt) (why : Failure)
      (i : Instance)
      → c.group ≡ some g
      → Distinct c.instances.entries
      → find c.instances e.name ≡ some i
      → str_eq i.id "" ≡ true
      → let c' = fail_start fl c lease e a why in
        (c'.broker ≡ release c.broker lease) × (find c'.instances e.name ≡ none)
  unfolding fail_start
  fail_start_lem c g lease e a why i grouped d there unset =
      let (same, kept, group) = record_start_failure-keeps c e.ended why a e.sample e.now in
      let c' = record_start_failure fl c e.ended why a e.sample e.now in
      let (freed, gone) =
        undone c' g e.name lease i (group ∙ grouped) (subst (λ s. Distinct s.entries) (sym same) d)
          (ap (λ s. find s e.name) same ∙ there) unset in
      (freed ∙ ap (λ b. release b lease) kept, gone)

-- The runner is reserved under the lease, and has no instance yet.
abbrev pub Pending : String → ℕ → Controller → Type 0
Pending name lease c =
    (g : String) × (i : Instance) × (c.group ≡ some g)
    × Distinct c.instances.entries
    × Issued lease c.broker
    × (find c.instances name ≡ some i)
    × (str_eq i.id "" ≡ true)

modify-Pending :
    (name : String) (lease : ℕ) (f : Instance → Instance) (c : Controller)
    → ((i : Instance) → (f i).id ≡ i.id)
    → Pending name lease c
    → Pending name lease
        (with_instances c (record c.instances { entries = modify name f c.instances.entries }))
modify-Pending name lease f c same (g, i, grouped, d, issued, there, unset) = (
  g,
  f i,
  grouped,
  modify-Distinct name f c.instances.entries d,
  issued,
  rw (lookup-modify name name f c.instances.entries, eq_refl name, there) refl,
  ap (λ id. str_eq id "") (same i) ∙ unset,
)

reserved-Pending :
    (c : Controller) (g name : String) (lease : ℕ)
    → c.group ≡ some g
    → Distinct c.instances.entries
    → Issued lease c.broker
    → find c.instances name ≡ none
    → Pending name lease (
        with_instances c
          (record c.instances { entries = add name (provisioned lease) c.instances.entries }))
reserved-Pending c g name lease grouped d issued fresh = (
  g,
  provisioned lease,
  grouped,
  add-Distinct name (provisioned lease) c.instances.entries fresh d,
  issued,
  rw (lookup-add name name (provisioned lease) c.instances.entries fresh, eq_refl name) refl,
  refl,
)

-- No instance came of the start: its lease is given back, and under its name stands what stood there
-- before.
abbrev pub Undone : Option Instance → String → ℕ → Controller × Started × List Call → Type 0
Undone before name lease (c, result, calls) =
    (result ≡ not_started) × Spent lease c.broker × (find c.instances name ≡ before)

module _ (fl : Float) where
  fail_start-Undone :
      (c : Controller) (lease : ℕ) (e : Starting fl) (a : Attempt) (why : Failure)
      (calls : List Call)
      → Pending e.name lease c
      → Undone none e.name lease (fail_start fl c lease e a why, not_started, calls)
  fail_start-Undone c lease e a why calls (g, i, grouped, d, (l, issued), there, unset) =
      let (freed, gone) = fail_start_lem fl c g lease e a why i grouped d there unset in
      (refl, subst (Spent lease) (sym freed) (release-Spent_self c.broker lease l issued), gone)

  jit_generated-Undone :
      (c : Controller) (lease : ℕ) (e : Starting fl) (a : Attempt) (jit : Option Jit)
      → (jit ≡ none) ⊎ (e.instance_id ≡ none)
      → ((d : Controller) → Pending e.name lease d → Pending e.name lease (e.before_start d))
      → Pending e.name lease c
      → Undone none e.name lease (jit_generated fl c lease e a jit)
  unfolding set_jit fail_start
  jit_generated-Undone c lease e a none why others p =
      fail_start-Undone c lease e a jit_config_failed [] p
  jit_generated-Undone c lease e a (some j) (inl h) others p = absurd (some-ne-none j h)
  jit_generated-Undone c lease e a (some j) (inr h) others p =
      let c' = with_instances c (set_jit c.instances e.name j.encoded) in
      let p' =
        others c'
          (modify-Pending e.name lease (λ i. record i { jit = j.encoded }) c (λ i. refl) p) in
      rw h (fail_start-Undone (e.before_start c') lease e a provider_start_failed [] p')

  -- A start for which GitHub makes no configuration, or the provider no instance, or whose name is
  -- taken, gives back its lease and leaves under the name what stood there before: for a new name,
  -- no runner. The other goroutines may do anything meanwhile but touch the reservation: a runner
  -- that is reserved and has no instance stays so, and its lease stays issued.
  pub start_with_lease-Undone :
      (c : Controller) (g : String) (lease : ℕ) (e : Starting fl)
      → ((d : Controller) → Pending e.name lease d → Pending e.name lease (e.before_jit d))
      → ((d : Controller) → Pending e.name lease d → Pending e.name lease (e.before_start d))
      → c.group ≡ some g
      → Distinct c.instances.entries
      → Issued lease c.broker
      → (e.jit ≡ none) ⊎ (e.instance_id ≡ none)
      → Undone (find c.instances e.name) e.name lease (start_with_lease fl c lease e)
  unfolding start_with_lease reserve record_start_attempt set_attempt
  start_with_lease-Undone c g lease e others others' grouped d (l, issued) why =
      elim (Option-cases (find c.instances e.name)) [
        | inl fresh ↦
            let p = reserved-Pending c g e.name lease grouped d (l, issued) fresh in
            let s = record c.instances {
              entries = add e.name (provisioned lease) c.instances.entries;
            } in
            let (c', a) = record_start_attempt (with_instances c s) e.started in
            let p' = modify-Pending e.name lease (λ i. record i { attempt = a }) c' (λ i. refl) p in
            let c'' = with_instances c' (set_attempt c'.instances e.name a) in
            rw fresh
              (jit_generated-Undone (e.before_jit c'') lease e a e.jit why others' (others c'' p'))
        | inr (i, taken) ↦
            rw taken
              (refl, rw grouped (release-Spent_self c.broker lease l issued), rw grouped taken)
      ]
