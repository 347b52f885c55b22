-- ===== src/Capacity/Reach.antt =====
-- The broker of internal/capacity/broker.go under any sequence of calls.
use runscaler.Base.{
  ℕ, ◌≡◌, refl, sym, subst, inl, inr, String, eq_iff, Bool, none, some, List, [], ◌∷◌, ◌++◌, arith,
  Option-cases, All, All-mono,
}
use runscaler.Base.Assoc.{lookup, add-Distinct, lookup-add}
use runscaler.Base.Int.{ℤ, pos_part}
use runscaler.Capacity.{
  Broker, Group, Lease, new_broker, register, registered, acquire, abandon, release,
}
use runscaler.Capacity.Counting.{live_of, Counts, Known, Inv}
use runscaler.Capacity.Invariant.{release-Inv, acquire-Inv, abandon-Inv}

live_of_unknown :
    (gs : List (String × Group)) (name : String) (ls : List Lease)
    → lookup name gs ≡ none
    → All (λ l. Known gs l.group) ls
    → live_of name ls ≡ 0
live_of_unknown gs name [] h a = refl
live_of_unknown gs name (l ∷ ls) h a =
    ground (arith, live_of_unknown gs name ls h a.1, eq_iff l.group name)

Counts-append :
    (f : String → ℕ) (gs : List (String × Group)) (name : String) (g : Group)
    → Counts f gs
    → g.in_use ≡ f name
    → Counts f (gs ++ (name, g) ∷ [])
Counts-append f [] name g c e = (e, tt)
Counts-append f ((k, h) ∷ gs) name g c e = (c.0, Counts-append f gs name g c.1 e)

Known-add :
    (gs : List (String × Group)) (name : String) (g : Group) (k : String)
    → lookup name gs ≡ none
    → Known gs k
    → Known (gs ++ (name, g) ∷ []) k
Known-add gs name g k h known = rw (lookup-add k name g gs h) (ground arith)

register-Inv :
    (b b' : Broker) (name : String) (minimum : ℤ)
    → register b name minimum ≡ some b'
    → Inv b
    → Inv b'
unfolding register
register-Inv b b' name minimum h v = elim (Option-cases (lookup name b.groups)) [
  | inr (g, e) ↦ absurd (ground arith)
  | inl e ↦ subst Inv {x = registered b name minimum} (ground arith) (record {
    distinct = add-Distinct name _ b.groups e v.distinct;
    counted = v.counted;
    grouped =
        Counts-append _ b.groups name (record { minimum = pos_part minimum; in_use = 0 }) v.grouped
          (sym (live_of_unknown b.groups name b.leases e v.leasing));
    within = v.within;
    waiting = All-mono _ _ b.waiters (λ w. Known-add b.groups name _ w.group e) v.waiting;
    leasing = All-mono _ _ b.leases (λ l. Known-add b.groups name _ l.group e) v.leasing;
  })
]

-- The calls of the controllers, by any goroutines in any order.
pub data Call : Broker → Broker → Type 0 where
  acquires :
      (b : Broker) (ended : Bool) (name : String)
      → Known b.groups name
      → Call b (acquire b ended (some name)).0
  abandons : (b : Broker) (t : ℕ) → Call b (abandon b t)
  releases : (b : Broker) (t : ℕ) → Call b (release b t)

-- Those, and the registration of a scale set.
pub data Step : Broker → Broker → Type 0 where
  registers :
      (b b' : Broker) (name : String) (minimum : ℤ) → register b name minimum ≡ some b' → Step b b'
  calls : {b c : Broker} → Call b c → Step b c

-- Any number of calls.
pub data Run (b : Broker) : Broker → Type 0 where
  idle : Run b b
  after : {c d : Broker} → Run b c → Call c d → Run b d

pub data Reach (b : Broker) : Broker → Type 0 where
  here : Reach b b
  next : {c d : Broker} → Reach b c → Step c d → Reach b d

pub Call-Inv : {b c : Broker} → Call b c → Inv b → Inv c
Call-Inv (acquires b ended name k) v = acquire-Inv b ended name k v
Call-Inv (abandons b t) v = abandon-Inv b t v
Call-Inv (releases b t) v = release-Inv b t v

Step-Inv : {b c : Broker} → Step b c → Inv b → Inv c
Step-Inv (registers b b' name minimum h) v = register-Inv b b' name minimum h v
Step-Inv (calls c) v = Call-Inv c v

-- Whatever calls are made on a new broker, in any order, its counter is the number of leases that
-- are out, each group's counter the number of its own, and a positive limit is never exceeded.
pub Reach-Inv : (limit : ℤ) {b : Broker} → Reach (new_broker limit) b → Inv b
unfolding new_broker
Reach-Inv limit here = record {
  distinct = tt;
  counted = refl;
  grouped = tt;
  within = λ h. omega arith;
  waiting = tt;
  leasing = tt;
}
Reach-Inv limit (next r s) = Step-Inv s (Reach-Inv limit r)
