-- ===== src/Capacity/Numbering.antt =====
-- Names for allocators in the examples: as many marks as the index says.
use Prim.Native.String.{String, [], ◌∷◌}
use Prim.Native.Char.{nul}
use runscaler.Base.{ℕ, zero, suc, ◌≡◌, refl, sym, ap, ◌∙◌}

abbrev pub marked : ℕ → String
marked zero = []
marked (suc n) = nul ∷ marked n

abbrev marks : String → ℕ
marks [] = 0
marks (_ ∷ s) = suc (marks s)

marks-marked : (n : ℕ) → marks (marked n) ≡ n
marks-marked zero = refl
marks-marked (suc n) = ap suc (marks-marked n)

abbrev pub numbered : ℕ → String → String
numbered i name = marked i

pub numbered_unique : (i j : ℕ) (a b : String) → numbered i a ≡ numbered j b → i ≡ j
numbered_unique i j a b e = sym (marks-marked i) ∙ ap marks e ∙ marks-marked j
