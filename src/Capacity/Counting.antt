-- ===== src/Capacity/Counting.antt =====
-- Counters and leases of internal/capacity/broker.go: what the two have in common, and how an
-- update of one group's counter or of one lease changes it.
use runscaler.Base.{
  ℕ, zero, suc, ◌+◌, ◌≤◌, ◌<◌, ◌≡◌, sym, subst, inl, inr, String, str_eq, eq_iff, true, false, ◌&&◌,
  not, none, some, List, [], ◌∷◌, ◌++◌, arith, if◌then◌else◌, Bool-cases, is_some, get_elem?, All,
  All-mono,
}
use runscaler.Base.Assoc.{lookup, modify, Distinct, lookup-modify}
use runscaler.Base.Int.{pos_part}
use runscaler.Capacity.{Broker, Group, Waiter, Lease, find_lease, mark_released}

-- The leases that are out.
abbrev pub live : List Lease → ℕ
live [] = 0
live (l ∷ ls) = (if l.released then 0 else 1) + live ls

-- Those of one group.
abbrev pub live_of : String → List Lease → ℕ
live_of k [] = 0
live_of k (l ∷ ls) = (if not l.released && str_eq l.group k then 1 else 0) + live_of k ls

-- Every group's counter has the value that `f` gives for its name.
abbrev pub Counts : (String → ℕ) → List (String × Group) → Type 0
Counts f [] = Unit
Counts f ((k, g) ∷ gs) = (g.in_use ≡ f k) × Counts f gs

abbrev pub Known : List (String × Group) → String → Type 0
Known gs name = is_some (lookup name gs) ≡ true

pub record Inv (b : Broker) : Type 0 where
  pub distinct : Distinct b.groups
  pub counted : b.in_use ≡ live b.leases
  pub grouped : Counts (λ k. live_of k b.leases) b.groups
  pub within : 0 < pos_part b.limit → b.in_use ≤ pos_part b.limit
  pub waiting : All (λ w. Known b.groups w.group) b.waiters
  pub leasing : All (λ l. Known b.groups l.group) b.leases

abbrev pub hit : String → String → ℕ
hit name k = if str_eq name k then 1 else 0

Counts-other :
    (f f' : String → ℕ) (name : String) (gs : List (String × Group))
    → lookup name gs ≡ none
    → ((k : String) → str_eq name k ≡ false → f' k ≡ f k)
    → Counts f gs
    → Counts f' gs
unfolding lookup
Counts-other f f' name [] h e c = tt
Counts-other f f' name ((k, g) ∷ gs) h e c = (
  ground (arith, e k, eq_iff name k, eq_iff k name),
  Counts-other f f' name gs (ground arith) e c.1,
)

-- The update of one group's counter, from the counts `f` to the counts `f'`.
module _ (f f' : String → ℕ) (name : String) (u : Group → Group) where
  pub Counts-modify :
      (gs : List (String × Group))
      → ((g : Group) → g.in_use ≡ f name → (u g).in_use ≡ f' name)
      → ((k : String) → str_eq name k ≡ false → f' k ≡ f k)
      → Distinct gs
      → Counts f gs
      → Counts f' (modify name u gs)
  unfolding modify
  Counts-modify [] at off d c = tt
  Counts-modify ((k, g) ∷ gs) at off d c = elim (Bool-cases (str_eq k name)) [
    | inl same ↦
        let e = (eq_iff k name).0 same in
        rw (same, modify)
          (
            subst (λ n. (u g).in_use ≡ f' n) (sym e) (at g (subst (λ n. g.in_use ≡ f n) e c.0)),
            Counts-other f f' name gs (subst (λ n. lookup n gs ≡ none) e d.0) off c.1,
          )
    | inr other ↦
        rw (other, modify)
          (ground (arith, off k, eq_iff k name, eq_iff name k), Counts-modify gs at off d.1 c.1)
  ]

pub live-append :
    (ls : List Lease) (l : Lease) → l.released ≡ false → live (ls ++ l ∷ []) ≡ live ls + 1
live-append [] l h = ground arith
live-append (x ∷ ls) l h = ground (arith, live-append ls l h)

pub live_of-append :
    (k : String) (ls : List Lease) (l : Lease)
    → l.released ≡ false
    → live_of k (ls ++ l ∷ []) ≡ live_of k ls + hit l.group k
live_of-append k [] l h = ground arith
live_of-append k (x ∷ ls) l h = ground (arith, live_of-append k ls l h)

pub live-mark :
    (t : ℕ) (ls : List Lease) (l : Lease)
    → find_lease t ls ≡ some l
    → l.released ≡ false
    → live ls ≡ live (mark_released t ls) + 1
unfolding find_lease mark_released
live-mark t [] l e h = ground arith
live-mark t (x ∷ ls) l e h = ground (arith, live-mark t ls l)

pub live_of-mark :
    (k : String) (t : ℕ) (ls : List Lease) (l : Lease)
    → find_lease t ls ≡ some l
    → l.released ≡ false
    → live_of k ls ≡ live_of k (mark_released t ls) + hit l.group k
unfolding find_lease mark_released
live_of-mark k t [] l e h = ground arith
live_of-mark k t (x ∷ ls) l e h = ground (arith, live_of-mark k t ls l)

Known-modify :
    (gs : List (String × Group)) (name : String) (u : Group → Group) (k : String)
    → Known gs k
    → Known (modify name u gs) k
Known-modify gs name u k h = rw (lookup-modify k name u gs) (ground arith)

module _ (gs : List (String × Group)) (name : String) (u : Group → Group) where
  pub Known-waiters :
      (ws : List Waiter)
      → All (λ w. Known gs w.group) ws
      → All (λ w. Known (modify name u gs) w.group) ws
  Known-waiters ws = All-mono _ _ ws (λ w. Known-modify gs name u w.group)

  pub Known-leases :
      (ls : List Lease)
      → All (λ l. Known gs l.group) ls
      → All (λ l. Known (modify name u gs) l.group) ls
  Known-leases ls = All-mono _ _ ls (λ l. Known-modify gs name u l.group)

pub All-get_elem? {ℓ κ} :
    {A : Type ℓ} (P : A → Type κ) (xs : List A) (i : ℕ) {x : A}
    → get_elem? xs i ≡ some x
    → All P xs
    → P x
All-get_elem? P [] i h a = absurd (ground arith)
All-get_elem? P (x ∷ xs) zero h a = ground (arith, a.0)
All-get_elem? P (x ∷ xs) (suc i) h a = All-get_elem? P xs i h a.1
