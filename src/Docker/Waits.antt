-- ===== src/Docker/Waits.antt =====
-- The loop of `WaitReady`, event by event.
use mathlib.Core.Option.{some-ne-none, some-injective}
use runscaler.Base.{
  ℕ, ◌-◌, ◌≤◌, ◌≡◌, refl, ap, sym, ◌∙◌, ◌⊎◌, inl, inr, Bool, true, false, ◌||◌, ◌&&◌, not,
  if◌then◌else◌, Option-cases, none, some, is_some, List, [], ◌∷◌, ◌++◌, All, arith,
}
use runscaler.Docker.Marker.{Writer, ready_marker, write_all-append, write_all}
use runscaler.Docker.{
  WaitResult, ready, Stream, stdout, stderr, Event, deadline, marker, finished, tick, output,
  Waiting, handle, answer, wait_loop, resume,
}

-- The wait after events at which it goes on.
unfoldable pub after : Waiting → List Event → Waiting
after w [] = w
after w (e ∷ es) = after (handle w e) es

-- What an event writes to a stream.
abbrev pub piece : Stream → Event → List (List ℕ)
piece stdout (output stdout p) = p ∷ []
piece stderr (output stderr p) = p ∷ []
piece s e = []

unfoldable pub outputs : Stream → List Event → List (List ℕ)
outputs s [] = []
outputs s (e ∷ es) = piece s e ++ outputs s es

-- The event does not show that the container has exited.
abbrev pub StaysUp : Event → Type 0
StaysUp (tick (some false) now) = ⊥
StaysUp e = Unit

goes_on : (settle : ℕ) (w : Waiting) (e : Event) → answer settle w e ≡ none → StaysUp e
goes_on settle w (deadline b) h = tt
goes_on settle w (marker n) h = tt
goes_on settle w finished h = tt
goes_on settle w (tick none n) h = tt
goes_on settle w (tick (some true) n) h = tt
goes_on settle w (tick (some false) n) h = absurd (some-ne-none _ h)
goes_on settle w (output s p) h = tt

-- The event that ends the wait.
pub wait_loop-answer :
    (settle : ℕ) (es : List Event) (w : Waiting) (r : WaitResult)
    → wait_loop settle w es ≡ some r
    → (before : List Event) × (e : Event) × (rest : List Event) × (es ≡ before ++ e ∷ rest)
      × (answer settle (after w before) e ≡ some r)
      × All StaysUp before
unfolding wait_loop after
wait_loop-answer settle [] w r h = absurd (some-ne-none r (sym h))
wait_loop-answer settle (e ∷ es) w r h = elim (Option-cases (answer settle w e)) [
  | inl goes ↦
      let next = ap (λ a. resume a (wait_loop settle (handle w e) es)) goes in
      let (before, e', rest, split, ends, up) =
        wait_loop-answer settle es (handle w e) r (sym next ∙ h) in
      (
        e ∷ before,
        e',
        rest,
        ap {B = List Event} (λ l. e ∷ l) split,
        ends,
        (goes_on settle w e goes, up),
      )
  | inr (r', stops) ↦
      let next = ap (λ a. resume a (wait_loop settle (handle w e) es)) stops in
      ([], e, es, refl, stops ∙ (sym next ∙ h), tt)
]

-- A writer holds what was written to its stream, where the logs were opened.
handle-opened : (w : Waiting) (e : Event) → (handle w e).opened ≡ w.opened
unfolding handle
handle-opened w (deadline b) = refl
handle-opened w (marker n) = ground arith
handle-opened w finished = ground arith
handle-opened w (tick none n) = refl
handle-opened w (tick (some up) n) = refl
handle-opened w (output stdout p) = ground arith
handle-opened w (output stderr p) = ground arith

abbrev writer : Stream → Waiting → Writer
writer stdout w = w.out
writer stderr w = w.err

handle-writer :
    (s : Stream) (w : Waiting) (e : Event)
    → w.opened ≡ true
    → writer s (handle w e) ≡ write_all ready_marker (writer s w) (piece s e)
unfolding handle write_all
handle-writer stdout w (deadline b) h = refl
handle-writer stdout w (marker n) h = ground arith
handle-writer stdout w finished h = ground arith
handle-writer stdout w (tick none n) h = refl
handle-writer stdout w (tick (some up) n) h = refl
handle-writer stdout w (output stdout p) h = rw h refl
handle-writer stdout w (output stderr p) h = rw h refl
handle-writer stderr w (deadline b) h = refl
handle-writer stderr w (marker n) h = ground arith
handle-writer stderr w finished h = ground arith
handle-writer stderr w (tick none n) h = refl
handle-writer stderr w (tick (some up) n) h = refl
handle-writer stderr w (output stdout p) h = rw h refl
handle-writer stderr w (output stderr p) h = rw h refl

pub after-writer :
    (s : Stream) (es : List Event) (w : Waiting)
    → w.opened ≡ true
    → writer s (after w es) ≡ write_all ready_marker (writer s w) (outputs s es)
unfolding after outputs write_all
after-writer s [] w h = refl
after-writer s (e ∷ es) w h =
    after-writer s es (handle w e) (handle-opened w e ∙ h)
    ∙ ap (λ v. write_all ready_marker v (outputs s es)) (handle-writer s w e h)
    ∙ sym (write_all-append ready_marker (writer s w) (piece s e) (outputs s es))

-- Where the logs were not opened, nothing is written.
handle-closed :
    (w : Waiting) (e : Event)
    → w.opened ≡ false
    → (w.out.found || w.err.found) ≡ false
    → ((handle w e).out.found || (handle w e).err.found) ≡ false
unfolding handle
handle-closed w (deadline b) h k = k
handle-closed w (marker n) h k = rw k k
handle-closed w finished h k = rw h k
handle-closed w (tick none n) h k = k
handle-closed w (tick (some up) n) h k = k
handle-closed w (output s p) h k = rw h k

pub after-closed :
    (es : List Event) (w : Waiting)
    → w.opened ≡ false
    → (w.out.found || w.err.found) ≡ false
    → ((after w es).out.found || (after w es).err.found) ≡ false
unfolding after
after-closed [] w h k = k
after-closed (e ∷ es) w h k =
    after-closed es (handle w e) (handle-opened w e ∙ h) (handle-closed w e h k)

noted :
    (w : Waiting) (n t : ℕ) (b : Bool)
    → (if b && not (is_some w.marked) then record w { marked = some n } else w).marked ≡ some t
    → (w.marked ≡ some t) ⊎ ((n ≡ t) × (b ≡ true))
noted w n t b h = ground (arith, h)

-- The marker was taken note of at a time at which a writer had found it.
handle-marked :
    (w : Waiting) (e : Event) (t : ℕ)
    → (handle w e).marked ≡ some t
    → (w.marked ≡ some t) ⊎ ((e ≡ marker t) × ((w.out.found || w.err.found) ≡ true))
unfolding handle
handle-marked w (deadline b) t h = inl h
handle-marked w (marker n) t h = elim (noted w n t (w.out.found || w.err.found) h) [
  | inl old ↦ inl old
  | inr (e, found) ↦ inr (ap marker e, found)
]
handle-marked w finished t h = ground (arith, h)
handle-marked w (tick none n) t h = inl h
handle-marked w (tick (some up) n) t h = inl h
handle-marked w (output stdout p) t h = ground (arith, h)
handle-marked w (output stderr p) t h = ground (arith, h)

handle-keeps_mark :
    (w : Waiting) (e : Event) (t : ℕ) → w.marked ≡ some t → (handle w e).marked ≡ some t
unfolding handle
handle-keeps_mark w (deadline b) t h = h
handle-keeps_mark w (marker n) t h = ground (arith, h)
handle-keeps_mark w finished t h = ground (arith, h)
handle-keeps_mark w (tick none n) t h = h
handle-keeps_mark w (tick (some up) n) t h = h
handle-keeps_mark w (output stdout p) t h = ground (arith, h)
handle-keeps_mark w (output stderr p) t h = ground (arith, h)

after-keeps_mark :
    (es : List Event) (w : Waiting) (t : ℕ) → w.marked ≡ some t → (after w es).marked ≡ some t
unfolding after
after-keeps_mark [] w t h = h
after-keeps_mark (e ∷ es) w t h = after-keeps_mark es (handle w e) t (handle-keeps_mark w e t h)

pub after-marked :
    (es : List Event) (w : Waiting) (t : ℕ)
    → (after w es).marked ≡ some t
    → w.marked ≡ none
    → (b : List Event) × (c : List Event) × (es ≡ b ++ marker t ∷ c)
      × (((after w b).out.found || (after w b).err.found) ≡ true)
unfolding after
after-marked [] w t h k = absurd (some-ne-none t (sym h ∙ k))
after-marked (e ∷ es) w t h k = elim (Option-cases (handle w e).marked) [
  | inl still ↦
      let (b, c, split, found) = after-marked es (handle w e) t h still in
      (e ∷ b, c, ap {B = List Event} (λ l. e ∷ l) split, found)
  | inr (t', now) ↦
      let same = some-injective t' t (sym (after-keeps_mark es (handle w e) t' now) ∙ h) in
      elim (handle-marked w e t' now) [
        | inl old ↦ absurd (some-ne-none t' (sym old ∙ k))
        | inr (at, found) ↦ ([], es, ap {B = List Event} (λ x. x ∷ es) (at ∙ ap marker same), found)
      ]
]

-- The answer `ready`.
pub answer-ready :
    (settle : ℕ) (w : Waiting) (e : Event)
    → answer settle w e ≡ some ready
    → (t : ℕ) × (now : ℕ) × (e ≡ tick (some true) now) × (w.marked ≡ some t) × (settle ≤ now - t)
answer-ready settle w (deadline b) h = absurd (ground (arith, h))
answer-ready settle w (marker n) h = absurd (some-ne-none ready (sym h))
answer-ready settle w finished h = absurd (some-ne-none ready (sym h))
answer-ready settle w (tick none n) h = absurd (some-ne-none ready (sym h))
answer-ready settle w (tick (some false) n) h = absurd (ground (arith, h))
answer-ready settle w (tick (some true) n) h = elim (Option-cases w.marked) [
  | inl e ↦ absurd (ground (arith, h, e))
  | inr (t, e) ↦ (t, n, refl, e, ground (arith, h, e))
]
answer-ready settle w (output s p) h = absurd (some-ne-none ready (sym h))
