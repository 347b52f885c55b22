-- ===== src/Config/Merge.antt =====
-- `deepMerge` of internal/config/load.go, and what a key of the result holds.
use runscaler.Base.{
  ◌≡◌, refl, ap, subst, ◌∙◌, String, str_eq, eq_iff, Option, none, some, arith, Bool-cases, inl,
  inr, if◌then◌else◌,
}
use runscaler.Config.{Value, table, Table, end, field, get, set, AllKeyed, as_table}

-- Both sides are tables, or the override stands as it is.
abbrev pub merge_tables : Option Table → (Table → Table) → Table → Value
merge_tables none merge override = table override
merge_tables (some base) merge override = table (merge base)

unfoldable mutual
  -- The loop over `override`: `base` is the map that is built.
  pub deep_merge : Table → Table → Table
  deep_merge base end = base
  deep_merge base (field k v override) =
      deep_merge (set k (merge_value (get k base) v) base) override

  pub merge_value : Option Value → Value → Value
  merge_value base (table override) =
      merge_tables (as_table base) (λ b. deep_merge b override) override
  merge_value base v = v

get-set :
    (j k : String) (v : Value) (t : Table)
    → get j (set k v t) ≡ (if str_eq k j then some v else get j t)
unfolding get set
get-set j k v end = refl
get-set j k v (field i w t) = ground (arith, eq_iff k j, eq_iff i k, eq_iff i j, get-set j k v t)

-- What a key holds after a merge, by what it holds on each side.
abbrev pub merged : Option Value → Option Value → Option Value
merged base none = base
merged base (some v) = some (merge_value base v)

-- One key after a merge is the merge of what the key holds on the two sides.
pub get-deep_merge :
    (k : String) (base override : Table)
    → AllKeyed override
    → get k (deep_merge base override) ≡ merged (get k base) (get k override)
unfolding deep_merge get
get-deep_merge k base end u = refl
get-deep_merge k base (field j v rest) (fresh, _, u) = elim (Bool-cases (str_eq j k)) [
  | inl same ↦
      let p : j ≡ k = (eq_iff j k).0 same in
      let gone : get k rest ≡ none = subst (λ i. get i rest ≡ none) p fresh in
      rw same (
        get-deep_merge k (set j (merge_value (get j base) v) base) rest u
        ∙ rw (gone, get-set k j (merge_value (get j base) v) base, same)
            (ap (λ i. some (merge_value (get i base) v)) p))
  | inr other ↦ rw other (
      get-deep_merge k (set j (merge_value (get j base) v) base) rest u
      ∙ rw (get-set k j (merge_value (get j base) v) base, other) refl)
]
