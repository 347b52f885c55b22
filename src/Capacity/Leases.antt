-- ===== src/Capacity/Leases.antt =====
-- The releases of a lease of internal/capacity/broker.go.
use runscaler.Base.{
  ℕ, ◌≡◌, ◌==◌, refl, inl, inr, true, false, some, List, [], ◌∷◌, ◌++◌, arith, get_elem?,
  Bool-cases, Option-cases, is_some,
}
use runscaler.Capacity.{
  Broker, Lease, register, acquire, abandon, release, release_found, grant, dispatch, find_lease,
  mark_released,
}
use runscaler.Capacity.Dispatch.{dispatch_inv}
use runscaler.Capacity.Invariant.{find_lease-ticket}
use runscaler.Capacity.Reach.{
  Call, acquires, abandons, releases, Step, registers, calls, Reach, here, next,
}

find_lease-append :
    (t : ℕ) (ls : List Lease) (l x : Lease)
    → find_lease t ls ≡ some l
    → find_lease t (ls ++ x ∷ []) ≡ some l
unfolding find_lease
find_lease-append t [] l x h = ground arith
find_lease-append t (y ∷ ls) l x h = ground (arith, find_lease-append t ls l x)

-- Another lease's release does not touch a lease, nor does its own second one.
find_lease-mark :
    (t u : ℕ) (ls : List Lease) (l : Lease)
    → find_lease t ls ≡ some l
    → l.released ≡ true
    → find_lease t (mark_released u ls) ≡ some l
unfolding find_lease mark_released
find_lease-mark t u [] l h s = ground arith
find_lease-mark t u (y ∷ ls) l h s = ground (arith, find_lease-mark t u ls l)

find_lease-mark_self :
    (t : ℕ) (ls : List Lease) (l : Lease)
    → find_lease t ls ≡ some l
    → find_lease t (mark_released t ls) ≡ some (record l { released = true })
unfolding find_lease mark_released
find_lease-mark_self t [] l h = ground arith
find_lease-mark_self t (y ∷ ls) l h = ground (arith, find_lease-mark_self t ls l)

-- The lease of ticket `t` is spent.
abbrev pub Spent : ℕ → Broker → Type 0
Spent t b = (l : Lease) × (find_lease t b.leases ≡ some l) × (l.released ≡ true)

pub grant-find_lease :
    (b : Broker) (i t : ℕ) (l : Lease)
    → find_lease t b.leases ≡ some l
    → find_lease t (grant b i).leases ≡ some l
unfolding grant
grant-find_lease b i t l h = elim (Option-cases (get_elem? b.waiters i)) [
  | inl e ↦ rw (e, grant) h
  | inr (w, e) ↦ rw (e, grant) (find_lease-append t b.leases l _ h)
]

dispatch-Spent : (t : ℕ) (b : Broker) → Spent t b → Spent t (dispatch b)
dispatch-Spent t =
    dispatch_inv (Spent t) (λ b w i room at ok (l, e, s). (l, grant-find_lease b i t l e, s))
      (λ b h. h)

pub release-Spent : (t u : ℕ) (b : Broker) → Spent t b → Spent t (release b u)
unfolding release
release-Spent t u b (l, e, s) = elim (Option-cases (find_lease u b.leases)) [
  | inl no_lease ↦ rw (no_lease, release_found) (l, e, s)
  | inr (x, found) ↦
      rw (found, release_found)
        (elim (Bool-cases x.released) [
          | inl spent ↦ rw spent (l, e, s)
          | inr out ↦ rw out (dispatch-Spent t _ (l, find_lease-mark t x.ticket b.leases l e s, s))
        ])
]

Call-Spent : (t : ℕ) {b c : Broker} → Call b c → Spent t b → Spent t c
unfolding acquire abandon
Call-Spent t (acquires b true name k) h = h
Call-Spent t (acquires b false name k) h = dispatch-Spent t _ h
Call-Spent t (abandons b u) h = elim (Bool-cases (is_some (find_lease u b.leases))) [
  | inl granted ↦ rw granted (release-Spent t u b h)
  | inr waits ↦ rw waits (dispatch-Spent t _ h)
]
Call-Spent t (releases b u) h = release-Spent t u b h

Step-Spent : (t : ℕ) {b c : Broker} → Step b c → Spent t b → Spent t c
unfolding register
Step-Spent t (registers b b' name minimum e) (l, at, s) = (l, ground arith, s)
Step-Spent t (calls c) h = Call-Spent t c h

Reach-Spent : (t : ℕ) {b c : Broker} → Reach b c → Spent t b → Spent t c
Reach-Spent t here h = h
Reach-Spent t (next r s) h = Step-Spent t s (Reach-Spent t r h)

-- After a release the lease is spent, also where the slot was handed on at once.
pub release-Spent_self :
    (b : Broker) (t : ℕ) (l : Lease) → find_lease t b.leases ≡ some l → Spent t (release b t)
unfolding release
release-Spent_self b t l e =
    rw (e, release_found)
      (elim (Bool-cases l.released) [
        | inl spent ↦ rw spent (l, e, spent)
        | inr out ↦
            rw (out, find_lease-ticket t b.leases l e)
              (dispatch-Spent t _ (_, find_lease-mark_self t b.leases l e, refl))
      ])

Spent-release : (b : Broker) (t : ℕ) → Spent t b → release b t ≡ b
unfolding release
Spent-release b t (l, e, s) = rw (e, release_found) (rw s)

-- A lease that has been released is good for nothing more: whatever calls come between, a second
-- release of it changes nothing, so no path of the cleanup frees a slot twice.
pub release_twice :
    (b c : Broker) (t : ℕ) (l : Lease)
    → find_lease t b.leases ≡ some l
    → Reach (release b t) c
    → release c t ≡ c
release_twice b c t l e r = Spent-release c t (Reach-Spent t r (release-Spent_self b t l e))

-- The lease is one that the broker has handed out, spent or not.
abbrev pub Issued : ℕ → Broker → Type 0
Issued t b = (l : Lease) × (find_lease t b.leases ≡ some l)

Issued-mark :
    (t u : ℕ) (ls : List Lease) (l : Lease)
    → find_lease t ls ≡ some l
    → (l' : Lease) × (find_lease t (mark_released u ls) ≡ some l')
unfolding find_lease mark_released
Issued-mark t u [] l h = absurd (ground arith)
Issued-mark t u (y ∷ ls) l h = elim (Bool-cases (y.ticket == t)) [
  | inl e ↦ elim (Bool-cases (y.ticket == u)) [
    | inl f ↦ (record y { released = true }, rw (f, mark_released) (rw (e, find_lease)))
    | inr f ↦ (y, rw (f, mark_released) (rw (e, find_lease)))
  ]
  | inr e ↦ elim (Bool-cases (y.ticket == u)) [
    | inl f ↦ (l, rw (f, mark_released) (rw (e, find_lease) (rw (e, find_lease) at h)))
    | inr f ↦
        let (l', g) = Issued-mark t u ls l (rw (e, find_lease) at h) in
        (l', rw (f, mark_released) (rw (e, find_lease) g))
  ]
]

pub release-Issued : (t u : ℕ) (b : Broker) → Issued t b → Issued t (release b u)
unfolding release
release-Issued t u b (l, e) = elim (Option-cases (find_lease u b.leases)) [
  | inl no_lease ↦ rw (no_lease, release_found) (l, e)
  | inr (x, found) ↦
      rw (found, release_found)
        (elim (Bool-cases x.released) [
          | inl spent ↦ rw spent (l, e)
          | inr out ↦ rw out (
              dispatch_inv (Issued t)
                (λ c w i room at ok (l', e'). (l', grant-find_lease c i t l' e')) (λ c h. h) _
                (Issued-mark t x.ticket b.leases l e))
        ])
]
