-- ===== src/Base/Strings.antt =====
-- Texts joined, and `sort.Strings` of Go's library as an insertion sort in the order of the bytes.
pub use Prim.Native.String.{◌++◌ as ◌<>◌}
use Prim.Native.String.{String, compare, len, slice}
use Prim.Native.Char.{Char, code}
use mathlib.Core.Bool.{Bool, false, ◌||◌}
use mathlib.Core.Option
use mathlib.Core.Option.{Option, none, some}
use text.Mathlib.Text.{is_le, starts_with, ◌==◌ as str_eq}
use mathlib.Core.List.{List, [], ◌∷◌}
use runscaler.Base.Tests.{◌==◌, if◌then◌else◌, Bool-cases}
use runscaler.Base.Lists.{All}
use mathlib.Core.Logic.{inl, inr}

unfoldable pub insert : String → List String → List String
insert s [] = s ∷ []
insert s (t ∷ ts) = if is_le (compare s t) then s ∷ t ∷ ts else t ∷ insert s ts

unfoldable pub sort : List String → List String
sort [] = []
sort (s ∷ ss) = insert s (sort ss)

module _ {ℓ} (P : String → Type ℓ) where
  insert-All : (s : String) (ts : List String) → P s → All P ts → All P (insert s ts)
  unfolding insert
  insert-All s [] p h = (p, tt)
  insert-All s (t ∷ ts) p h = elim (Bool-cases (is_le (compare s t))) [
    | inl e ↦ rw e (p, h)
    | inr e ↦ rw e (h.0, insert-All s ts p h.1)
  ]

  All-insert : (s : String) (ts : List String) → All P (insert s ts) → P s × All P ts
  unfolding insert
  All-insert s [] h = h
  All-insert s (t ∷ ts) h = elim (Bool-cases (is_le (compare s t))) [
    | inl e ↦ rw e at h
    | inr e ↦
        let k : All P (t ∷ insert s ts) = rw e at h in
        let r = All-insert s ts k.1 in (r.0, (k.0, r.1))
  ]

  pub sort-All : (ss : List String) → All P ss → All P (sort ss)
  unfolding sort
  sort-All [] h = tt
  sort-All (s ∷ ss) h = insert-All s (sort ss) h.0 (sort-All ss h.1)

  pub All-sort : (ss : List String) → All P (sort ss) → All P ss
  unfolding sort
  All-sort [] h = tt
  All-sort (s ∷ ss) h = let r = All-insert s (sort ss) h in (r.0, All-sort ss r.1)

-- `strings.HasPrefix`, `strings.HasSuffix` and `strings.TrimPrefix`.
abbrev pub has_prefix : String → String → Bool
has_prefix s p = starts_with s p

abbrev pub trim_prefix : String → String → String
trim_prefix s p = if starts_with s p then slice s (len p) (len s) else s

abbrev push : Char → List String → List String
push c [] = String.◌∷◌ c String.[] ∷ []
push c (w ∷ ws) = String.◌∷◌ c w ∷ ws

-- `strings.Split` at one character.
unfoldable pub split : Char → String → List String
split c String.[] = String.[] ∷ []
split c (String.◌∷◌ d s) =
    let rest = split c s in if code d == code c then String.[] ∷ rest else push d rest

abbrev before : Char → Option (String × String) → Option (String × String)
before c none = none
before c (some (w, rest)) = some (String.◌∷◌ c w, rest)

-- `strings.Cut` at one character; `none` where it does not stand in the text.
unfoldable pub cut : Char → String → Option (String × String)
cut c String.[] = none
cut c (String.◌∷◌ d s) =
    let rest = cut c s in if code d == code c then some (String.[], s) else before d rest

-- `strings.CutSuffix`.
unfoldable pub cut_suffix : String → String → Option String
cut_suffix String.[] suffix = if str_eq String.[] suffix then some String.[] else none
cut_suffix (String.◌∷◌ c s) suffix =
    let rest = cut_suffix s suffix in
    if str_eq (String.◌∷◌ c s) suffix then some String.[] else Option.map (λ w. String.◌∷◌ c w) rest

-- `slices.Compact`.
unfoldable pub compact : List String → List String
compact [] = []
compact (s ∷ ss) = s ∷ unlike s ss
  where
    unlike : String → List String → List String
    unlike s [] = []
    unlike s (t ∷ ts) = let rest = unlike t ts in if str_eq s t then rest else t ∷ rest

abbrev pub mem : String → List String → Bool
mem s [] = false
mem s (t ∷ ts) = str_eq s t || mem s ts
