-- ===== src/Config/Inherit.antt =====
-- What a `[[scaleset]]` entry inherits: `scalesetDefaults`, `builtinDefaults` and the overlay of
-- `Load` in internal/config/load.go.
use runscaler.Base.{
  ◌≡◌, refl, sym, ap, subst, ◌∙◌, inl, inr, String, str_eq, eq_iff, true, Bool-cases, Option, none,
  some, List, [], ◌∷◌, arith, All, if◌then◌else◌,
}
use runscaler.Base.Strings.{mem}
use runscaler.Config.{Value, table, Table, end, field, get, remove, remove_all, as_table, AllKeyed}
use runscaler.Config.Merge.{deep_merge, merge_value, merged, get-deep_merge}
use runscaler.Config.Paths.{value_at, is_unset, merged-override, merged-unset}
use runscaler.Config.Keys.{
  identity_keys, global_only_keys, builtin_defaults, scaleset_defaults, entry_settings,
}

get-remove :
    (j k : String) (t : Table)
    → AllKeyed t
    → get j (remove k t) ≡ (if str_eq k j then none else get j t)
unfolding get remove
get-remove j k end u = ground arith
get-remove j k (field i v t) u =
    ground (arith, u.0, eq_iff k j, eq_iff i k, eq_iff i j, get-remove j k t u.2)

remove-AllKeyed : (k : String) (t : Table) → AllKeyed t → AllKeyed (remove k t)
unfolding get remove
remove-AllKeyed k end u = tt
remove-AllKeyed k (field i v t) u = elim (Bool-cases (str_eq i k)) [
  | inl same ↦ rw same u.2
  | inr differ ↦
      rw differ (get-remove i k t u.2 ∙ ground (arith, u.0), u.1, remove-AllKeyed k t u.2)
]

get-remove_all :
    (j : String) (ks : List String) (t : Table)
    → AllKeyed t
    → get j (remove_all ks t) ≡ (if mem j ks then none else get j t)
unfolding remove_all
get-remove_all j [] t u = refl
get-remove_all j (k ∷ ks) t u =
    get-remove_all j ks (remove k t) (remove-AllKeyed k t u)
    ∙ rw (get-remove j k t u) (ground (arith, eq_iff j k, eq_iff k j))

remove_all-AllKeyed : (ks : List String) (t : Table) → AllKeyed t → AllKeyed (remove_all ks t)
unfolding remove_all
remove_all-AllKeyed [] t u = u
remove_all-AllKeyed (k ∷ ks) t u = remove_all-AllKeyed ks (remove k t) (remove-AllKeyed k t u)

scaleset_defaults-AllKeyed : (t : Table) → AllKeyed t → AllKeyed (scaleset_defaults t)
unfolding scaleset_defaults
scaleset_defaults-AllKeyed t u =
    remove_all-AllKeyed identity_keys _ (remove_all-AllKeyed global_only_keys t u)

-- What an entry of its own sets, it has: at any depth, and also where it is zero or false.
pub entry_settings-override :
    (settings own : Table) (ks : List String) (v : Value)
    → AllKeyed own
    → value_at ks (some (table own)) ≡ some v
    → as_table (some v) ≡ none
    → value_at ks (some (table (entry_settings settings own))) ≡ some v
unfolding entry_settings merge_value as_table
entry_settings-override settings own ks v u e leaf =
    merged-override ks (some (table (deep_merge builtin_defaults (scaleset_defaults settings))))
      (some (table own)) v u e leaf

-- Where an entry leaves a path unset, at whatever depth, it has there what the top level gives, and
-- where that is unset too, the compiled-in default.
entry_settings-unset :
    (settings own : Table) (ks : List String)
    → AllKeyed settings
    → AllKeyed own
    → is_unset ks (some (table own)) ≡ true
    → is_unset ks (some (table (scaleset_defaults settings))) ≡ true
    → value_at ks (some (table (entry_settings settings own)))
      ≡ value_at ks (some (table builtin_defaults))
unfolding entry_settings merge_value as_table
entry_settings-unset settings own ks u u' e e' =
    merged-unset ks (some (table (deep_merge builtin_defaults (scaleset_defaults settings))))
      (some (table own)) u' e
    ∙ merged-unset ks (some (table builtin_defaults)) (some (table (scaleset_defaults settings)))
        (scaleset_defaults-AllKeyed settings u) e'

merge_value-none : (v : Value) → merge_value none v ≡ v
unfolding merge_value as_table
merge_value-none (table t) = refl
merge_value-none _ = refl

merged-none : (o : Option Value) → merged none o ≡ o
merged-none none = refl
merged-none (some v) = ap some (merge_value-none v)

mem-All : (P : String → Type 0) (k : String) (ks : List String) → All P ks → mem k ks ≡ true → P k
mem-All P k [] h e = absurd (ground (arith, e))
mem-All P k (j ∷ ks) h e = elim (Bool-cases (str_eq k j)) [
  | inl same ↦ subst P (sym ((eq_iff k j).0 same)) h.0
  | inr differ ↦ mem-All P k ks h.1 (rw differ at e)
]

-- The keys that identify a scale set (url, name, token, github-app, labels and min-runners) are
-- never inherited: for these an entry has what it sets itself and nothing else, whatever the top
-- level says.
pub entry_settings-identity :
    (settings own : Table) (key : String)
    → AllKeyed settings
    → AllKeyed own
    → mem key identity_keys ≡ true
    → get key (entry_settings settings own) ≡ get key own
unfolding entry_settings scaleset_defaults get
entry_settings-identity settings own key u u' e =
    let above = remove_all global_only_keys settings in
    let built : get key builtin_defaults ≡ none =
      mem-All (λ k. get k builtin_defaults ≡ none) key identity_keys
        (refl, (refl, (refl, (refl, (refl, (refl, tt)))))) e in
    let top : get key (remove_all identity_keys above) ≡ none =
      get-remove_all key identity_keys above (remove_all-AllKeyed global_only_keys settings u)
      ∙ rw e refl in
    get-deep_merge key _ own u'
    ∙ ap (λ b. merged b (get key own))
        (get-deep_merge key builtin_defaults (scaleset_defaults settings)
            (scaleset_defaults-AllKeyed settings u)
          ∙ rw (built, top) refl)
    ∙ merged-none (get key own)
