-- ===== src/Base/Assoc.antt =====
-- Go's `map[string]V` as an association list: an entry is written where its key stands first, and
-- a new key goes to the end. `Distinct` says that no key stands twice.
use Prim.Native.Nat.{ℕ, ◌+◌}
use Prim.Native.String.{String}
use text.Mathlib.Text.{◌==◌ as str_eq}
use text.Mathlib.TextEquality.{eq_iff}
use mathlib.Core.Path.{◌≡◌, refl, sym, subst, ◌∙◌}
use mathlib.Core.Logic.{inl, inr}
use mathlib.Core.Bool.{false}
use mathlib.Core.List.{List, [], ◌∷◌, ◌++◌}
use mathlib.Core.Option
use mathlib.Core.Option.{Option, none, some, none-ne-some}
use native.Mathlib.Omega.{arith}
use text.Mathlib.TextPositions.{eq_refl}
use runscaler.Base.Lists.{All, All-append}
use runscaler.Base.Tests.{if◌then◌else◌, Bool-cases, Option-cases, is_some}

module _ {ℓ} {V : Type ℓ} where
  unfoldable pub lookup : String → List (String × V) → Option V
  lookup k [] = none
  lookup k ((j, v) ∷ m) = if str_eq j k then some v else lookup k m

  unfoldable pub modify : String → (V → V) → List (String × V) → List (String × V)
  modify k f [] = []
  modify k f ((j, v) ∷ m) = if str_eq j k then (j, f v) ∷ m else (j, v) ∷ modify k f m

  unfoldable pub delete : String → List (String × V) → List (String × V)
  delete k [] = []
  delete k ((j, v) ∷ m) = if str_eq j k then m else (j, v) ∷ delete k m

  -- A new key; the callers have looked it up before.
  abbrev pub add : String → V → List (String × V) → List (String × V)
  add k v m = m ++ (k, v) ∷ []

  -- `m[k] = v`
  unfoldable pub put : String → V → List (String × V) → List (String × V)
  put k v m = if is_some (lookup k m) then modify k (λ _. v) m else add k v m

  abbrev pub Distinct : List (String × V) → Type ℓ
  Distinct [] = Unit
  Distinct ((k, v) ∷ m) = (lookup k m ≡ none) × Distinct m

  abbrev OnSome : (V → Type ℓ) → Option V → Type ℓ
  OnSome P none = Unit
  OnSome P (some v) = P v

  pub lookup-modify :
      (j k : String) (f : V → V) (m : List (String × V))
      → lookup j (modify k f m) ≡ (if str_eq k j then Option.map f (lookup j m) else lookup j m)
  unfolding lookup modify
  lookup-modify j k f [] = ground arith
  lookup-modify j k f ((i, v) ∷ m) =
      ground (arith, eq_iff k j, eq_iff i k, eq_iff i j, lookup-modify j k f m)

  pub lookup-delete :
      (j k : String) (m : List (String × V))
      → str_eq k j ≡ false
      → lookup j (delete k m) ≡ lookup j m
  unfolding lookup delete
  lookup-delete j k [] h = refl
  lookup-delete j k ((i, v) ∷ m) h =
      ground (arith, eq_iff k j, eq_iff i k, eq_iff i j, lookup-delete j k m h)

  pub lookup-delete_self :
      (k : String) (m : List (String × V)) → Distinct m → lookup k (delete k m) ≡ none
  unfolding lookup delete
  lookup-delete_self k [] d = refl
  lookup-delete_self k ((i, v) ∷ m) d = ground (arith, eq_iff i k, lookup-delete_self k m d.1)

  pub lookup-add :
      (j k : String) (v : V) (m : List (String × V))
      → lookup k m ≡ none
      → lookup j (add k v m) ≡ (if str_eq k j then some v else lookup j m)
  unfolding lookup
  lookup-add j k v [] h = refl
  lookup-add j k v ((i, w) ∷ m) h =
      ground (arith, eq_iff k j, eq_iff i k, eq_iff i j, lookup-add j k v m)

  pub modify-Distinct :
      (k : String) (f : V → V) (m : List (String × V)) → Distinct m → Distinct (modify k f m)
  unfolding modify
  modify-Distinct k f [] d = tt
  modify-Distinct k f ((i, v) ∷ m) d =
      ground (arith, modify-Distinct k f m d.1, lookup-modify i k f m, eq_iff i k, eq_iff k i)

  pub delete-Distinct : (k : String) (m : List (String × V)) → Distinct m → Distinct (delete k m)
  unfolding delete
  delete-Distinct k [] d = tt
  delete-Distinct k ((i, v) ∷ m) d =
      ground (arith, delete-Distinct k m d.1, lookup-delete i k m, eq_iff i k, eq_iff k i)

  pub add-Distinct :
      (k : String) (v : V) (m : List (String × V))
      → lookup k m ≡ none
      → Distinct m
      → Distinct (add k v m)
  unfolding lookup
  add-Distinct k v [] h d = (refl, tt)
  add-Distinct k v ((i, w) ∷ m) h d =
      ground (arith, add-Distinct k v m, lookup-add i k v m, eq_iff i k, eq_iff k i)

  pub lookup-put :
      (j k : String) (v : V) (m : List (String × V))
      → lookup j (put k v m) ≡ (if str_eq k j then some v else lookup j m)
  unfolding put
  lookup-put j k v m = elim (Option-cases (lookup k m)) [
    | inl e ↦ rw e (lookup-add j k v m e)
    | inr (w, e) ↦ rw e (elim (Bool-cases (str_eq k j)) [
      | inl same ↦
          let here : lookup j m ≡ some w =
            subst (λ i. lookup i m ≡ some w) ((eq_iff k j).0 same) e in
          rw (lookup-modify j k (λ _. v) m, same, here) refl
      | inr other ↦ rw (lookup-modify j k (λ _. v) m, other) refl
    ])
  ]

  pub put-Distinct :
      (k : String) (v : V) (m : List (String × V)) → Distinct m → Distinct (put k v m)
  unfolding put
  put-Distinct k v m d = elim (Option-cases (lookup k m)) [
    | inl e ↦ rw e (add-Distinct k v m e d)
    | inr (w, e) ↦ rw e (modify-Distinct k (λ _. v) m d)
  ]

  Distinct-lookup_from :
      (m : List (String × V)) (P : String × V → Type ℓ)
      → Distinct m
      → ((k : String) (v : V) → lookup k m ≡ some v → P (k, v))
      → All P m
  unfolding lookup
  Distinct-lookup_from [] P d f = tt
  Distinct-lookup_from ((i, w) ∷ m) P d f = (
    f i w (rw (eq_refl i) refl),
    Distinct-lookup_from m P d.1 (λ k v e. f k v (elim (Bool-cases (str_eq i k)) [
      | inl same ↦
          absurd
            (none-ne-some v (sym (subst (λ j. lookup j m ≡ none) ((eq_iff i k).0 same) d.0) ∙ e))
      | inr other ↦ rw other e
    ])),
  )

  -- Where no key stands twice, each entry is the one that its key finds.
  pub Distinct-lookup : (m : List (String × V)) → Distinct m → All (λ e. lookup e.0 m ≡ some e.1) m
  Distinct-lookup m d = Distinct-lookup_from m (λ e. lookup e.0 m ≡ some e.1) d (λ k v e. e)

  pub lookup-All :
      (P : String × V → Type ℓ) (k : String) (v : V) (m : List (String × V))
      → lookup k m ≡ some v
      → All P m
      → P (k, v)
  unfolding lookup
  lookup-All P k v [] e h = absurd (none-ne-some v e)
  lookup-All P k v ((i, w) ∷ m) e h = elim (Bool-cases (str_eq i k)) [
    | inl same ↦
        let here : some w ≡ some v = rw same at e in
        subst (λ j. P (j, v)) ((eq_iff i k).0 same) (subst (λ o. OnSome (λ x. P (i, x)) o) here h.0)
    | inr other ↦ lookup-All P k v m (rw other at e) h.1
  ]

  pub put-All :
      (P : String × V → Type ℓ) (k : String) (v : V) (m : List (String × V))
      → P (k, v)
      → All P m
      → All P (put k v m)
  unfolding put modify
  put-All P k v m p h = elim (Bool-cases (is_some (lookup k m))) [
    | inl e ↦ rw e (modify-All m h)
    | inr e ↦ rw e (All-append P m ((k, v) ∷ []) h (p, tt))
  ]
    where
      modify-All : (m : List (String × V)) → All P m → All P (modify k (λ _. v) m)
      modify-All [] h = tt
      modify-All ((i, w) ∷ m) h = elim (Bool-cases (str_eq i k)) [
        | inl same ↦ rw same (subst (λ j. P (j, v)) (sym ((eq_iff i k).0 same)) p, h.1)
        | inr other ↦ rw other (h.0, modify-All m h.1)
      ]

  -- The sum of a measure over all entries.
  abbrev pub total : (String → V → ℕ) → List (String × V) → ℕ
  total f [] = 0
  total f ((k, v) ∷ m) = f k v + total f m
