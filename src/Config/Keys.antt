-- ===== src/Config/Keys.antt =====
-- The keys of the settings: what internal/config/load.go refuses, leaves out and reports.

use runscaler.Base.{
  ℕ, zero, ◌+◌, ◌⊎◌, inl, inr, String, str_eq, Bool, true, false, not, Option, none, some, is_some,
  List, [], ◌∷◌, if◌then◌else◌,
}
use runscaler.Base.Int.{pos}
use runscaler.Base.Strings.{◌<>◌, sort, compact, split, has_prefix}
use runscaler.Config.{
  Value, nil, text, flag, number, float, array, tables, texts, table, Values, no_values, value,
  Tables, no_tables, entry, Table, end, field, get, remove, remove_all, as_table,
}
use runscaler.Config.Merge.{deep_merge}
use runscaler.Config.Settings.{default_provider, default_docker_socket}

abbrev pub global_only_keys : List String
global_only_keys =
    "log-level" ∷ "log-format" ∷ "log-file" ∷ "health-port" ∷ "health-address" ∷ "dry-run"
    ∷ "drain-timeout" ∷ "concurrent" ∷ "diagnostics" ∷ []

abbrev pub identity_keys : List String
identity_keys = "url" ∷ "name" ∷ "token" ∷ "github-app" ∷ "labels" ∷ "min-runners" ∷ []

-- What `Load` refuses; `retired` has the old key and the new one.
pub data LoadError : Type 0 where
  not_an_array : LoadError
  not_a_table : ℕ → LoadError
  retired : String → String → LoadError
  undecodable : LoadError
  in_scale_set : ℕ → LoadError → LoadError

abbrev pub Checked : Type 0 → Type 0
Checked A = LoadError ⊎ A

-- One round of the loop of `rejectRetiredKeys`, with the table that it is about.
abbrev pub reject_key : Option Table → String → String → String → Option LoadError
reject_key none prefix old current = none
reject_key (some t) prefix old current =
    if is_some (get old t) then some (retired (prefix <> old) (prefix <> current)) else none

abbrev pub first_error : Option LoadError → Option LoadError → Option LoadError
first_error (some e) _ = some e
first_error none e = e

unfoldable pub reject_retired_keys : Table → Option LoadError
reject_retired_keys settings = first_error (reject_key (some settings) "" "backend" "provider") (
    first_error
      (reject_key (as_table (get "docker" settings)) "docker." "shared-volume-ttl"
        "shared-volume-max-age")
      (reject_key (as_table (get "tart" settings)) "tart." "cache-space-budget" "cache-budget"))

abbrev pub entries_of : Tables → List Table
entries_of no_tables = []
entries_of (entry t ts) = t ∷ entries_of ts

abbrev pub cons_entry : Table → Checked (List Table) → Checked (List Table)
cons_entry t (inl e) = inl e
cons_entry t (inr ts) = inr (t ∷ ts)

abbrev pub entries_in : ℕ → Values → Checked (List Table)
entries_in i no_values = inr []
entries_in i (value (table t) vs) = cons_entry t (entries_in (i + 1) vs)
entries_in i (value _ vs) = inl (not_a_table i)

abbrev pub scale_set_entries : Option Value → Checked (List Table)
scale_set_entries none = inr []
scale_set_entries (some (tables ts)) = inr (entries_of ts)
scale_set_entries (some (array vs)) = entries_in 0 vs
scale_set_entries (some _) = inl not_an_array

-- `popScaleSets`: the settings without the key, and its entries.
unfoldable pub pop_scale_sets : Table → Table × Checked (List Table)
pop_scale_sets settings = (remove "scaleset" settings, scale_set_entries (get "scaleset" settings))

-- 5 s, 1 min, 5 failures, 5 min.
abbrev pub default_retry_settings : Table
default_retry_settings = field "initial" (number (pos 5000000000)) (
    field "max" (number (pos 60000000000))
      (field "cooldown-after" (number (pos 5)) (field "cooldown" (number (pos 300000000000)) end)))

abbrev pub builtin_defaults : Table
builtin_defaults = field "runner-image" (text "ghcr.io/actions/actions-runner:latest") (
    field "runner-group" (text "default") (
      field "max-runners" (number (pos 10)) (
        field "provider" (text default_provider) (
          field "retry" (table default_retry_settings) (
            field "docker"
              (table (field "socket" (text default_docker_socket) (field "dind" (flag true) end)))
              end)))))

unfoldable pub scaleset_defaults : Table → Table
scaleset_defaults settings = remove_all identity_keys (remove_all global_only_keys settings)

-- The settings of one `[[scaleset]]` entry, as they are decoded.
unfoldable pub entry_settings : Table → Table → Table
entry_settings settings own =
    deep_merge (deep_merge builtin_defaults (scaleset_defaults settings)) own

-- Some key of the list lies below `key`.
abbrev pub is_parent : String → List String → Bool
is_parent key [] = false
is_parent key (k ∷ ks) = if has_prefix k (key <> ".") then true else is_parent key ks

abbrev pub leaves : List String → List String → List String
leaves keys [] = []
leaves keys (k ∷ ks) = let rest = leaves keys ks in if is_parent k keys then rest else k ∷ rest

unfoldable pub leaf_unused_keys : List String → List String
leaf_unused_keys unused = let keys = compact (sort unused) in leaves keys keys

abbrev pub has_path : Option Table → List String → Bool
has_path t [] = true
has_path none (k ∷ ks) = false
has_path (some t) (k ∷ ks) = elim (get k t) [
  | none ↦ false
  | some v ↦ has_path (as_table (some v)) ks
]

unfoldable pub has_key_path : Table → String → Bool
has_key_path t dotted = has_path (some t) (split "." dotted)

abbrev pub is_explicitly_set : Option Value → Bool
is_explicitly_set none = false
is_explicitly_set (some nil) = false
is_explicitly_set (some (text s)) = not (str_eq s "")
is_explicitly_set (some (flag b)) = b
is_explicitly_set (some (number (pos zero))) = false
is_explicitly_set (some (float (pos zero))) = false
is_explicitly_set (some (array no_values)) = false
is_explicitly_set (some (texts [])) = false
is_explicitly_set (some _) = true

abbrev pub keys_set : Table → List String → List String
keys_set t [] = []
keys_set t (k ∷ ks) =
    let rest = keys_set t ks in if is_explicitly_set (get k t) then k ∷ rest else rest

unfoldable pub single_mode_keys_set : Table → List String
single_mode_keys_set settings = keys_set settings identity_keys
