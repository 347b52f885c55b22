-- ===== src/Instances/Effect/Common.antt =====
-- The effect of a call of internal/controller/state.go on one runner, and that of a write to the
-- map.
use runscaler.Base.{
  ℕ, ◌≡◌, refl, sym, ap, subst, ◌≢◌, inl, inr, String, str_eq, eq_iff, Option, none, some, List, [],
  ◌∷◌, arith, Bool-cases, Option-cases,
}
use runscaler.Base.Assoc.{
  lookup, modify, delete, add, Distinct, modify-Distinct, delete-Distinct, add-Distinct,
  lookup-modify, lookup-delete, lookup-delete_self, lookup-add,
}
use runscaler.Instances.{Instances, Instance, find, put, cancel, provisioned}
use runscaler.Instances.Change.{Change}
use runscaler.Instances.Ops.Claims.{drain_all, drains}

-- Whether a call takes a runner in, drops one, or does neither.
pub data Kind : Type 0 where
  keeping taking dropping : Kind

-- What a call does to the whole map.
pub data Shape (kind : Kind) (m : List (String × Instance))
    : List (String × Instance) → Type 0 where
  same : Shape kind m m
  modified :
      (k : String) (f : Instance → Instance)
      → ((i : Instance) → lookup k m ≡ some i → Change i (f i))
      → Shape kind m (modify k f m)
  deleted :
      (k : String) (i : Instance)
      → kind ≡ dropping
      → lookup k m ≡ some i
      → Shape kind m (delete k m)
  added :
      (k : String) (lease : ℕ)
      → kind ≡ taking
      → lookup k m ≡ none
      → Shape kind m (add k (provisioned lease) m)
  drained_all : Shape kind m (drain_all m)
  cleared : kind ≡ dropping → Shape kind m []

-- The instance found is replaced by another one.
pub put-Shape :
    {kind : Kind} (s : Instances) (k : String) (i j : Instance)
    → find s k ≡ some i
    → Change i j
    → Shape kind s.entries (put s k j).entries
put-Shape s k i j at c = modified k (λ _. j) (λ i' at'. subst (λ x. Change x j) (ground arith) c)

pub cancel-Shape :
    {kind : Kind} (s : Instances) (c : Option ℕ) (t : Instances)
    → Shape kind s.entries t.entries
    → Shape kind s.entries (cancel c t).entries
cancel-Shape s none t h = h
cancel-Shape s (some c) t h = h

-- What it does to one runner.
abbrev pub Becomes : Option Instance → Option Instance → Type 0
Becomes (some i) (some j) = Change i j
Becomes (some i) none = Unit
Becomes none (some j) = (lease : ℕ) × (j ≡ provisioned lease)
Becomes none none = Unit

Becomes-refl : (o : Option Instance) → Becomes o o
Becomes-refl none = tt
Becomes-refl (some i) = Change.keeps

Becomes-none : (o : Option Instance) → Becomes o none
Becomes-none none = tt
Becomes-none (some i) = tt

modify-Becomes :
    (m : List (String × Instance)) (k name : String) (f : Instance → Instance)
    → ((i : Instance) → lookup k m ≡ some i → Change i (f i))
    → Becomes (lookup name m) (lookup name (modify k f m))
modify-Becomes m k name f h = rw (lookup-modify name k f m) (elim (Bool-cases (str_eq k name)) [
  | inr e ↦ rw e (Becomes-refl _)
  | inl e ↦ rw e (elim (Option-cases (lookup name m)) [
    | inl missing ↦ rw missing tt
    | inr (i, there) ↦
        rw there (h i (subst (λ n. lookup n m ≡ some i) (sym ((eq_iff k name).0 e)) there))
  ])
])

delete-Becomes :
    (m : List (String × Instance)) (k name : String)
    → Distinct m
    → Becomes (lookup name m) (lookup name (delete k m))
delete-Becomes m k name d = elim (Bool-cases (str_eq k name)) [
  | inr e ↦ rw (lookup-delete name k m e) (Becomes-refl _)
  | inl e ↦
      subst (λ n. Becomes (lookup name m) (lookup name (delete n m))) (sym ((eq_iff k name).0 e))
        (rw (lookup-delete_self name m d) (Becomes-none (lookup name m)))
]

add-Becomes :
    (m : List (String × Instance)) (k name : String) (lease : ℕ)
    → lookup k m ≡ none
    → Becomes (lookup name m) (lookup name (add k (provisioned lease) m))
add-Becomes m k name lease e =
    rw (lookup-add name k (provisioned lease) m e) (elim (Bool-cases (str_eq k name)) [
      | inr other ↦ rw other (Becomes-refl _)
      | inl hit ↦ rw hit (
          subst (λ o. Becomes o (some (provisioned lease)))
            (sym (subst (λ n. lookup n m ≡ none) ((eq_iff k name).0 hit) e)) (lease, refl))
    ])

drain_all-Becomes :
    (name : String) (m : List (String × Instance))
    → Becomes (lookup name m) (lookup name (drain_all m))
unfolding lookup
drain_all-Becomes name [] = tt
drain_all-Becomes name ((k, i) ∷ m) = elim (Bool-cases (str_eq k name)) [
  | inr miss ↦ rw miss (drain_all-Becomes name m)
  | inl hit ↦ rw hit (elim (Bool-cases (drains i)) [
    | inl e ↦ rw e (Change.drains_it e)
    | inr e ↦ rw e Change.keeps
  ])
]

pub Shape-Becomes :
    {kind : Kind} {m n : List (String × Instance)} (name : String)
    → Distinct m
    → Shape kind m n
    → Becomes (lookup name m) (lookup name n)
unfolding lookup
Shape-Becomes name d same = Becomes-refl _
Shape-Becomes {m} name d (modified k f h) = modify-Becomes m k name f h
Shape-Becomes {m} name d (deleted k i drop e) = delete-Becomes m k name d
Shape-Becomes {m} name d (added k lease new e) = add-Becomes m k name lease e
Shape-Becomes {m} name d drained_all = drain_all-Becomes name m
Shape-Becomes name d (cleared drop) = Becomes-none _

lookup-drain_all :
    (name : String) (m : List (String × Instance))
    → lookup name m ≡ none
    → lookup name (drain_all m) ≡ none
unfolding lookup
lookup-drain_all name [] h = refl
lookup-drain_all name ((k, i) ∷ m) h = ground (arith, lookup-drain_all name m)

drain_all-Distinct : (m : List (String × Instance)) → Distinct m → Distinct (drain_all m)
drain_all-Distinct [] d = tt
drain_all-Distinct ((k, i) ∷ m) d = (lookup-drain_all k m d.0, drain_all-Distinct m d.1)

-- No runner stands twice in the map.
pub Shape-Distinct :
    {kind : Kind} {m n : List (String × Instance)} → Shape kind m n → Distinct m → Distinct n
Shape-Distinct same d = d
Shape-Distinct {m} (modified k f h) d = modify-Distinct k f m d
Shape-Distinct {m} (deleted k i drop e) d = delete-Distinct k m d
Shape-Distinct {m} (added k lease new e) d = add-Distinct k (provisioned lease) m e d
Shape-Distinct {m} drained_all d = drain_all-Distinct m d
Shape-Distinct (cleared drop) d = tt

modify-none :
    (m : List (String × Instance)) (k name : String) (f : Instance → Instance)
    → lookup name m ≡ none
    → lookup name (modify k f m) ≡ none
modify-none m k name f h = rw (lookup-modify name k f m) (ground arith)

delete-none :
    (m : List (String × Instance)) (k name : String)
    → Distinct m
    → lookup name m ≡ none
    → lookup name (delete k m) ≡ none
delete-none m k name d h = elim (Bool-cases (str_eq k name)) [
  | inr e ↦ rw (lookup-delete name k m e) h
  | inl e ↦
      subst (λ n. lookup name (delete n m) ≡ none) (sym ((eq_iff k name).0 e))
        (lookup-delete_self name m d)
]

-- A runner that is not in the map comes in by a reservation only.
pub Shape-none :
    {kind : Kind} {m n : List (String × Instance)} (name : String)
    → kind ≢ taking
    → Distinct m
    → Shape kind m n
    → lookup name m ≡ none
    → lookup name n ≡ none
unfolding lookup
Shape-none name other d same h = h
Shape-none {m} name other d (modified k f g) h = modify-none m k name f h
Shape-none {m} name other d (deleted k i drop e) h = delete-none m k name d h
Shape-none {m} name other d (added k lease new e) h = absurd (other new)
Shape-none {m} name other d drained_all h = lookup-drain_all name m h
Shape-none name other d (cleared drop) h = refl

-- The leases that the runners in the map hold.
abbrev pub held : List (String × Instance) → List ℕ
held [] = []
held ((_, i) ∷ m) = i.lease ∷ held m

Change-lease : {i j : Instance} → Change i j → j.lease ≡ i.lease
Change-lease Change.keeps = refl
Change-lease (Change.readies id r) = refl
Change-lease (Change.binds id r c) = refl
Change-lease (Change.passes h) = refl
Change-lease (Change.fails why h) = refl
Change-lease (Change.notes_attempt a) = refl
Change-lease (Change.notes_jit j) = refl
Change-lease (Change.collects h) = refl
Change-lease (Change.exits h) = refl
Change-lease (Change.works p job h) = refl
Change-lease (Change.restores h) = refl
Change-lease (Change.ends why job given h) = refl
Change-lease (Change.scales h) = refl
Change-lease (Change.drains_it h) = refl
Change-lease (Change.claims now h) = refl
Change-lease (Change.retries now h k) = refl

held-modify :
    (m : List (String × Instance)) (k : String) (f : Instance → Instance)
    → ((i : Instance) → lookup k m ≡ some i → Change i (f i))
    → held (modify k f m) ≡ held m
unfolding modify lookup
held-modify [] k f h = refl
held-modify ((j, i) ∷ m) k f h = elim (Bool-cases (str_eq j k)) [
  | inl e ↦ rw (e, modify) (ap (λ x. x ∷ held m) (Change-lease (h i (rw (e, lookup)))))
  | inr e ↦
      rw (e, modify) (ap (λ xs. i.lease ∷ xs) (held-modify m k f (λ x at. h x (rw (e, lookup) at))))
]

held-drain_all : (m : List (String × Instance)) → held (drain_all m) ≡ held m
held-drain_all [] = refl
held-drain_all ((k, i) ∷ m) = ground (arith, held-drain_all m)

-- A call that neither takes a runner in nor drops one leaves all leases where they are.
pub Shape-held :
    {kind : Kind} {m n : List (String × Instance)}
    → kind ≡ keeping
    → Shape kind m n
    → held n ≡ held m
Shape-held keep same = refl
Shape-held {m = m} keep (modified k f h) = held-modify m k f h
Shape-held keep (deleted k i drop e) = absurd (ground arith)
Shape-held keep (added k lease new e) = absurd (ground arith)
Shape-held {m = m} keep drained_all = held-drain_all m
Shape-held keep (cleared drop) = absurd (ground arith)
