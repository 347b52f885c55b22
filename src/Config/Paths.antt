-- ===== src/Config/Paths.antt =====
-- What `deepMerge` of internal/config/load.go leaves under a path of keys.
use runscaler.Base.{
  ◌≡◌, refl, sym, subst, inl, inr, String, str_eq, Bool, true, false, Bool-cases, is_some, ◌&&◌,
  ◌∙◌, Option, none, some, List, [], ◌∷◌, arith,
}
use mathlib.Core.Option.{none-ne-some, some-ne-none}
use runscaler.Config.{as_table, Value, table, Table, end, field, get, AllKeyed, IsKeyed}
use runscaler.Config.Merge.{deep_merge, merge_tables, merge_value, get-deep_merge, merged}

abbrev pub get_in : String → Option Table → Option Value
get_in k none = none
get_in k (some t) = get k t

-- What stands under a path.
unfoldable pub value_at : List String → Option Value → Option Value
value_at [] o = o
value_at (k ∷ ks) o = value_at ks (get_in k (as_table o))

-- The path leads out of the tables: nothing stands under it, and no setting that is not a table
-- stands in its way.
unfoldable pub is_unset : List String → Option Value → Bool
is_unset ks none = true
is_unset [] (some v) = false
is_unset (k ∷ ks) (some v) =
    let rest = is_unset ks (get_in k (as_table (some v))) in is_some (as_table (some v)) && rest

abbrev pub OptKeyed : Option Value → Type 0
OptKeyed none = Unit
OptKeyed (some v) = IsKeyed v

get-OptKeyed : (k : String) (t : Table) → AllKeyed t → OptKeyed (get k t)
unfolding get
get-OptKeyed k end u = tt
get-OptKeyed k (field j v t) u = elim (Bool-cases (str_eq j k)) [
  | inl e ↦ rw e u.1
  | inr e ↦ rw e (get-OptKeyed k t u.2)
]

leaf_kept : (b : Option Value) (v : Value) → as_table (some v) ≡ none → merge_value b v ≡ v
unfolding merge_value as_table
leaf_kept b (table t) e = absurd (some-ne-none t e)
leaf_kept b _ e = refl

value_at-none : (ks : List String) → value_at ks none ≡ none
unfolding value_at as_table
value_at-none [] = refl
value_at-none (k ∷ ks) = value_at-none ks

-- The override's settings win: what it sets under a path, other than a table, stands there.
pub merged-override :
    (ks : List String) (base override : Option Value) (v : Value)
    → OptKeyed override
    → value_at ks override ≡ some v
    → as_table (some v) ≡ none
    → value_at ks (merged base override) ≡ some v
unfolding value_at as_table merge_value
merged-override ks base none v u e leaf = absurd (none-ne-some v (sym (value_at-none ks) ∙ e))
merged-override [] base (some w) v u e leaf =
    rw (leaf_kept base w (subst (λ o. as_table o ≡ none) (sym e) leaf)) e
merged-override (k ∷ ks) base (some (table t)) v u e leaf =
    merged_tables-override (as_table base)
      (λ b. merged-override ks (get k b) (get k t) v (get-OptKeyed k t u) e leaf)
  where
    merged_tables-override :
        (o : Option Table)
        → ((b : Table) → value_at ks (merged (get k b) (get k t)) ≡ some v)
        → value_at ks (get_in k (as_table (some (merge_tables o (λ b. deep_merge b t) t)))) ≡ some v
    merged_tables-override none below = e
    merged_tables-override (some b) below = rw (get-deep_merge k b t u) (below b)
merged-override (k ∷ ks) base (some _) v u e leaf =
    absurd (none-ne-some v (sym (value_at-none ks) ∙ e))

unset-none : (ks : List String) (o : Option Value) → is_unset ks o ≡ true → value_at ks o ≡ none
unfolding value_at is_unset as_table
unset-none ks none e = value_at-none ks
unset-none [] (some v) e = absurd (ground (arith, e))
unset-none (k ∷ ks) (some (table t)) e = unset-none ks (get k t) e
unset-none (k ∷ ks) (some _) e = absurd (ground (arith, e))

-- What the override leaves unset is inherited.
pub merged-unset :
    (ks : List String) (base override : Option Value)
    → OptKeyed override
    → is_unset ks override ≡ true
    → value_at ks (merged base override) ≡ value_at ks base
unfolding value_at is_unset as_table merge_value
merged-unset ks base none u e = refl
merged-unset [] base (some w) u e = absurd (ground (arith, e))
merged-unset (k ∷ ks) base (some (table t)) u e =
    merged_tables-unset (as_table base)
      (λ b. merged-unset ks (get k b) (get k t) (get-OptKeyed k t u) e)
  where
    merged_tables-unset :
        (o : Option Table)
        → ((b : Table) → value_at ks (merged (get k b) (get k t)) ≡ value_at ks (get k b))
        → value_at ks (get_in k (as_table (some (merge_tables o (λ b. deep_merge b t) t))))
          ≡ value_at ks (get_in k o)
    merged_tables-unset none below = unset-none ks (get k t) e ∙ sym (value_at-none ks)
    merged_tables-unset (some b) below = rw (get-deep_merge k b t u) (below b)
merged-unset (k ∷ ks) base (some _) u e = absurd (ground (arith, e))
