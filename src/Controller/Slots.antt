-- ===== src/Controller/Slots.antt =====
-- The host slots of a controller (internal/controller/controller.go): what it gives back.
use runscaler.Base.{
  ℕ, ◌≡◌, sym, ap, ◌∙◌, subst, inl, inr, String, str_eq, eq_refl, true, none, some, List, [], ◌∷◌,
  arith, Bool-cases,
}
use runscaler.Base.Assoc.{lookup, delete, Distinct, lookup-delete_self}
use runscaler.Capacity.{release}
use runscaler.Capacity.Leases.{Spent, release-Spent_self, release-Spent, Issued, release-Issued}
use runscaler.Instances.{Instances, Instance, find, is_removing}
use runscaler.Instances.Ops.Claims.{detach_all, finish_removal, finish_removal_at}
use runscaler.Controller.{Controller, release_lease, signal_reconcile}
use runscaler.Controller.Cleanup.{finish, finished}
use runscaler.Controller.Drain.{shutdown, release_all, begin_drain}
use runscaler.Controller.Demand.{with_instances}

release_lease-broker :
    (c : Controller) (t : ℕ) (g : String)
    → c.group ≡ some g
    → (release_lease c t).broker ≡ release c.broker t
release_lease-broker c t g e = ground arith

release_lease-group : (c : Controller) (t : ℕ) → (release_lease c t).group ≡ c.group
release_lease-group c t = ground arith

release_all-Spent :
    (m : List (String × Instance)) (t : ℕ) (c : Controller) (g : String)
    → c.group ≡ some g
    → Spent t c.broker
    → Spent t (release_all m c).broker
release_all-Spent [] t c g e h = h
release_all-Spent ((k, i) ∷ m) t c g e h =
    release_all-Spent m t (release_lease c i.lease) g (release_lease-group c i.lease ∙ e) (
      subst (Spent t) (sym (release_lease-broker c i.lease g e))
        (release-Spent t i.lease c.broker h))

release_all-held :
    (m : List (String × Instance)) (name : String) (i : Instance) (c : Controller) (g : String)
    → lookup name m ≡ some i
    → c.group ≡ some g
    → Issued i.lease c.broker
    → Spent i.lease (release_all m c).broker
unfolding lookup
release_all-held [] name i c g at e h = absurd (ground arith)
release_all-held ((k, x) ∷ m) name i c g at e (l, issued) =
    let e' = release_lease-group c x.lease ∙ e in
    let b = sym (release_lease-broker c x.lease g e) in
    elim (Bool-cases (str_eq k name)) [
      | inl hit ↦
          let same : x.lease ≡ i.lease =
            ap (λ (y : Instance). y.lease) {x = x} {y = i} (ground arith) in
          release_all-Spent m i.lease (release_lease c x.lease) g e' (
            subst (Spent i.lease) b (
              subst (λ n. Spent i.lease (release c.broker n)) (sym same)
                (release-Spent_self c.broker i.lease l issued)))
      | inr miss ↦
          release_all-held m name i (release_lease c x.lease) g (ground arith) e'
            (subst (Issued i.lease) b (release-Issued i.lease x.lease c.broker (l, issued)))
    ]

-- A shutdown gives back every lease that a runner in the map holds when the wait for the workers is
-- over, whatever they did in it. (A lease is spent once it is given back.)
pub shutdown-Spent :
    (c : Controller) (waiting : Controller → Controller) (g name : String) (i : Instance)
    → (waiting (begin_drain c)).group ≡ some g
    → find (waiting (begin_drain c)).instances name ≡ some i
    → Issued i.lease (waiting (begin_drain c)).broker
    → Spent i.lease (shutdown c waiting).0.broker
unfolding shutdown detach_all
shutdown-Spent c waiting g name i e at h =
    let c' = waiting (begin_drain c) in release_all-held c'.instances.entries name i _ g at e h

finish_removal-eq :
    (s : Instances) (name : String) (i : Instance)
    → find s name ≡ some i
    → is_removing i.phase ≡ true
    → finish_removal s name i.id ≡ (
      record s { entries = delete name s.entries },
      some (record { lease = i.lease; reason = i.remove_reason; job = i.job }),
    )
unfolding finish_removal
finish_removal-eq s name i e p = rw (e, finish_removal_at) (rw (p, eq_refl i.id))

signal-broker : (c : Controller) → (signal_reconcile c).broker ≡ c.broker
unfolding signal_reconcile
signal-broker c = ground arith

signal-instances : (c : Controller) → (signal_reconcile c).instances ≡ c.instances
unfolding signal_reconcile
signal-instances c = ground arith

release_lease-instances : (c : Controller) (t : ℕ) → (release_lease c t).instances ≡ c.instances
release_lease-instances c t = ground arith

-- The end of a removal takes the runner out of the map and gives back its lease.
finish_lem :
    (c : Controller) (g name : String) (i : Instance)
    → c.group ≡ some g
    → Distinct c.instances.entries
    → find c.instances name ≡ some i
    → is_removing i.phase ≡ true
    → ((finish c name i.id).broker ≡ release c.broker i.lease)
      × (find (finish c name i.id).instances name ≡ none)
unfolding finish
finish_lem c g name i e d at p =
    let h = finish_removal-eq c.instances name i at p in
    let s : Instances = record {
      entries = delete name c.instances.entries;
      cancelled = c.instances.cancelled;
    } in
    (
      ap (λ r. (finished c r).broker) h
          ∙ signal-broker _
          ∙ release_lease-broker (with_instances c s) i.lease g e,
      ap (λ r. find (finished c r).instances name) h
          ∙ ap (λ t. find t name)
              (signal-instances (release_lease (with_instances c s) i.lease)
                ∙ release_lease-instances (with_instances c s) i.lease)
          ∙ lookup-delete_self name c.instances.entries d,
    )
