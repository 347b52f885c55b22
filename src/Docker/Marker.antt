-- ===== src/Docker/Marker.antt =====
-- internal/provider/docker_readiness.go: `readyMarkerWriter`, on bytes. It keeps the last bytes of
-- what it was given, one fewer than the marker has.
use mathlib.Core.List.{append_assoc, append-nil}
use mathlib.Core.Bool.{or_assoc, or_comm}
use runscaler.Base.{
  ℕ, zero, suc, ◌+◌, ◌-◌, ◌≤◌, ◌==◌, ◌≡◌, refl, sym, ap, subst, ◌∙◌, ◌⊎◌, inl, inr, Bool-cases,
  leb→le, Bool, true, false, ◌&&◌, ◌||◌, List, [], ◌∷◌, ◌++◌, length, length-append, arith, leb,
  if◌then◌else◌,
}

-- "Listening for Jobs"
abbrev pub ready_marker : List ℕ
ready_marker =
    76 ∷ 105 ∷ 115 ∷ 116 ∷ 101 ∷ 110 ∷ 105 ∷ 110 ∷ 103 ∷ 32 ∷ 102 ∷ 111 ∷ 114 ∷ 32 ∷ 74 ∷ 111 ∷ 98
    ∷ 115 ∷ []

unfoldable pub is_prefix : List ℕ → List ℕ → Bool
is_prefix [] s = true
is_prefix (b ∷ m) [] = false
is_prefix (b ∷ m) (c ∷ s) = b == c && is_prefix m s

-- `strings.Contains(s, m)`
unfoldable pub contains : List ℕ → List ℕ → Bool
unfolding is_prefix
contains m [] = is_prefix m []
contains m (c ∷ s) = is_prefix m (c ∷ s) || contains m s

unfoldable pub drop : ℕ → List ℕ → List ℕ
drop zero s = s
drop (suc n) [] = []
drop (suc n) (c ∷ s) = drop n s

pub record Writer : Type 0 where
  pub tail : List ℕ
  -- Whether `found` was called.
  pub found : Bool

abbrev pub new_writer : Writer
new_writer = record { tail = []; found = false }

module _ (m : List ℕ) where
  abbrev pub kept_tail : List ℕ → List ℕ
  kept_tail s = if leb (length m) (length s) then drop (length s - length m + 1) s else s

  -- `Write`
  unfoldable pub write : Writer → List ℕ → Writer
  unfolding contains drop
  write w p = let s = w.tail ++ p in record { tail = kept_tail s; found = contains m s || w.found }

  unfoldable pub write_all : Writer → List (List ℕ) → Writer
  unfolding write
  write_all w [] = w
  write_all w (p ∷ ps) = write_all (write w p) ps

abbrev pub joined : List (List ℕ) → List ℕ
joined [] = []
joined (p ∷ ps) = p ++ joined ps

is_prefix-append : (m s p : List ℕ) → length m ≤ length s → is_prefix m (s ++ p) ≡ is_prefix m s
unfolding is_prefix
is_prefix-append [] s p h = refl
is_prefix-append (b ∷ m) [] p h = absurd (omega (arith, h))
is_prefix-append (b ∷ m) (c ∷ s) p h = rw (is_prefix-append m s p (omega (arith, h))) refl

is_prefix_grows : (m s p : List ℕ) → is_prefix m s ≡ true → is_prefix m (s ++ p) ≡ true
unfolding is_prefix
is_prefix_grows [] s p h = refl
is_prefix_grows (b ∷ m) [] p h = ground (arith, h)
is_prefix_grows (b ∷ m) (c ∷ s) p h = let k = is_prefix_grows m s p in ground (arith, h, k)

contains-prefix : (m s : List ℕ) → is_prefix m s ≡ true → contains m s ≡ true
unfolding contains
contains-prefix m [] h = h
contains-prefix m (c ∷ s) h = rw h refl

pub contains_grows : (m s p : List ℕ) → contains m s ≡ true → contains m (s ++ p) ≡ true
unfolding contains
contains_grows m [] p h = contains-prefix m p (is_prefix_grows m [] p h)
contains_grows m (c ∷ s) p h =
    let k = is_prefix_grows m (c ∷ s) p in let l = contains_grows m s p in ground (arith, h, k, l)

-- Bytes before the kept ones add nothing.
contains-split :
    (m a t p : List ℕ)
    → (length a ≡ 0) ⊎ (length m ≤ length t + 1)
    → contains m (a ++ (t ++ p)) ≡ (contains m (a ++ t) || contains m (t ++ p))
unfolding contains
contains-split m [] t p h = let k = contains_grows m t p in ground (arith, k)
contains-split m (c ∷ a) t p (inl e) = absurd (omega (arith, e))
contains-split m (c ∷ a) t p (inr h) =
    let k = contains-split m a t p (inr h) in
    let l =
      sym (ap (λ s. is_prefix m (c ∷ s)) (append_assoc a t p))
      ∙ is_prefix-append m (c ∷ a ++ t) p (omega (arith, h, length-append a t)) in
    rw (l, k)
      (sym (or_assoc (is_prefix m (c ∷ a ++ t)) (contains m (a ++ t)) (contains m (t ++ p))))

front : (n : ℕ) (s : List ℕ) → (a : List ℕ) × (s ≡ a ++ drop n s)
unfolding drop
front zero s = ([], refl)
front (suc n) [] = ([], refl)
front (suc n) (c ∷ s) = let (a, e) = front n s in (c ∷ a, ap {B = List ℕ} (λ r. c ∷ r) e)

length-drop : (n : ℕ) (s : List ℕ) → length (drop n s) ≡ length s - n
unfolding drop
length-drop zero s = omega arith
length-drop (suc n) [] = omega arith
length-drop (suc n) (c ∷ s) = omega (arith, length-drop n s)

-- The writer after the bytes `read`.
abbrev Follows : List ℕ → Writer → List ℕ → Type 0
Follows m w read =
    (a : List ℕ) × (read ≡ a ++ w.tail)
    × ((length a ≡ 0) ⊎ (length m ≤ length w.tail + 1))
    × (w.found ≡ contains m read)

kept_tail-Follows :
    (m s a : List ℕ)
    → (length a ≡ 0) ⊎ (length m ≤ length s + 1)
    → (b : List ℕ) × (a ++ s ≡ b ++ kept_tail m s)
      × ((length b ≡ 0) ⊎ (length m ≤ length (kept_tail m s) + 1))
kept_tail-Follows m s a h = elim (Bool-cases (leb (length m) (length s))) [
  | inl long ↦
      let k = length s - length m + 1 in
      let (f, e) = front k s in
      rw long (
        a ++ f,
        ap (λ r. a ++ r) e ∙ sym (append_assoc a f (drop k s)),
        inr (omega (arith, length-drop k s, leb→le (length m) (length s) long)),
      )
  | inr short ↦ rw short (a, refl, h)
]

longer_tail :
    (n : ℕ) (a t p : List ℕ)
    → (length a ≡ 0) ⊎ (n ≤ length t + 1)
    → (length a ≡ 0) ⊎ (n ≤ length (t ++ p) + 1)
longer_tail n a t p (inl e) = inl e
longer_tail n a t p (inr h) = inr (omega (arith, h, length-append t p))

write-Follows :
    (m : List ℕ) (w : Writer) (p read : List ℕ)
    → Follows m w read
    → Follows m (write m w p) (read ++ p)
unfolding write
write-Follows m w p read (a, e, long, found) =
    let at_p = ap (λ r. r ++ p) e ∙ append_assoc a w.tail p in
    let (b, e', long') =
      kept_tail-Follows m (w.tail ++ p) a (longer_tail (length m) a w.tail p long) in
    let seen = contains-split m a w.tail p long in
    let before = found ∙ ap (contains m) e in
    (
      b,
      at_p ∙ e',
      long',
      rw (before, at_p, seen) (or_comm (contains m (w.tail ++ p)) (contains m (a ++ w.tail))),
    )

write_all-Follows :
    (m : List ℕ) (w : Writer) (ps : List (List ℕ)) (read : List ℕ)
    → Follows m w read
    → Follows m (write_all m w ps) (read ++ joined ps)
unfolding write_all
write_all-Follows m w [] read h = subst (Follows m w) (sym (append-nil read)) h
write_all-Follows m w (p ∷ ps) read h =
    subst (Follows m (write_all m (write m w p) ps)) (append_assoc read p (joined ps))
      (write_all-Follows m (write m w p) ps (read ++ p) (write-Follows m w p read h))

new-Follows : Follows ready_marker new_writer []
unfolding contains is_prefix
new-Follows = ([], refl, inl refl, refl)

pub write_all-append :
    (m : List ℕ) (w : Writer) (ps qs : List (List ℕ))
    → write_all m w (ps ++ qs) ≡ write_all m (write_all m w ps) qs
unfolding write_all
write_all-append m w [] qs = refl
write_all-append m w (p ∷ ps) qs = write_all-append m (write m w p) ps qs

-- However the output is cut into calls of `Write`, and though the writer keeps only the last 17
-- bytes of it, `found` is called exactly where the output joined together contains the marker.
pub write_all-contains :
    (ps : List (List ℕ))
    → (write_all ready_marker new_writer ps).found ≡ contains ready_marker (joined ps)
write_all-contains ps =
    let (_, _, _, found) = write_all-Follows ready_marker new_writer ps [] new-Follows in found
