-- ===== src/Config/Load.antt =====
-- internal/config/load.go. Viper's settings are the argument; `mapstructure`, which decodes a table
-- into a configuration and reports the keys that it does not know, is a parameter (`Decoder`).

use runscaler.Base.{
  ℕ, ◌+◌, ltb, inl, inr, String, str_eq, Option, none, some, List, [], ◌∷◌, ◌++◌, map, length,
  if◌then◌else◌,
}
use runscaler.Config.{table, Table, end, field}
use runscaler.Config.Keys.{
  Checked, LoadError, undecodable, in_scale_set, reject_retired_keys, pop_scale_sets,
  default_retry_settings, entry_settings, leaf_unused_keys, has_key_path, single_mode_keys_set,
}
use runscaler.Config.Merge.{deep_merge}
use runscaler.Config.Settings.{Settings, ScaleSetConfig, default_health_address}

pub data Warning : Type 0 where
  ignored_keys : List String → Warning
  unknown_key : String → Warning
  unknown_in : ℕ → String → Warning

-- `none` is an error of `mapstructure`; the list has the keys that match no field.
pub record Decoder : Type 0 where
  pub decode_settings : Table → Option (Settings × List String)
  pub decode_scale_set : Table → Option (ScaleSetConfig × List String)

-- Unknown keys that an entry sets itself; the inherited ones are reported once, for the top level.
abbrev pub unknown_keys : ℕ → Table → List String → List Warning
unknown_keys i own [] = []
unknown_keys i own (k ∷ ks) =
    let rest = unknown_keys i own ks in if has_key_path own k then unknown_in i k ∷ rest else rest

abbrev pub Loaded : Type 0
Loaded = List ScaleSetConfig × List Warning

abbrev pub also : ScaleSetConfig → List Warning → Checked Loaded → Checked Loaded
also ss ws (inl e) = inl e
also ss ws (inr (rest, warnings)) = inr (ss ∷ rest, ws ++ warnings)

abbrev pub decoded :
    ℕ → Table → Checked Loaded → Option (ScaleSetConfig × List String) → Checked Loaded
decoded i own rest none = inl (in_scale_set i undecodable)
decoded i own rest (some (ss, unused)) = also ss (unknown_keys i own (leaf_unused_keys unused)) rest

abbrev pub checked_entry : ℕ → Checked Loaded → Option LoadError → Checked Loaded
checked_entry i rest none = rest
checked_entry i rest (some e) = inl (in_scale_set i e)

module _ (d : Decoder) where
  -- The loop over the `[[scaleset]]` entries, from index `i`.
  unfoldable pub load_scale_sets : Table → ℕ → List Table → Checked Loaded
  load_scale_sets settings i [] = inr ([], [])
  load_scale_sets settings i (own ∷ rest) =
      checked_entry i
        (decoded i own (load_scale_sets settings (i + 1) rest)
          (d.decode_scale_set (entry_settings settings own)))
        (reject_retired_keys own)

  abbrev pub with_health_address : Settings → Settings
  with_health_address c =
      if str_eq c.health_address "" then record c { health_address = default_health_address } else c

  abbrev pub mixed : Table → List Table → List Warning
  mixed settings [] = []
  mixed settings (_ ∷ _) =
      let keys = single_mode_keys_set settings in
      if ltb 0 (length keys) then ignored_keys keys ∷ [] else []

  abbrev pub finished :
      Settings → List String → List Warning → Checked Loaded → Checked (Settings × List Warning)
  finished c unused ws (inl e) = inl e
  finished c unused ws (inr (sets, warnings)) = inr (
    with_health_address (record c { scale_sets = sets }),
    ws ++ map unknown_key (leaf_unused_keys unused) ++ warnings,
  )

  abbrev pub top_decoded :
      Table → List Table → Option (Settings × List String) → Checked (Settings × List Warning)
  top_decoded settings entries none = inl undecodable
  top_decoded settings [] (some (c, unused)) =
      inr (with_health_address c, map unknown_key (leaf_unused_keys unused))
  top_decoded settings entries (some (c, unused)) =
      finished c unused (mixed settings entries) (load_scale_sets settings 0 entries)

  abbrev pub top_checked : Table → List Table → Option LoadError → Checked (Settings × List Warning)
  top_checked settings entries (some e) = inl e
  top_checked settings entries none =
      let merged = deep_merge (field "retry" (table default_retry_settings) end) settings in
      top_decoded merged entries (d.decode_settings merged)

  abbrev pub popped : Table × Checked (List Table) → Checked (Settings × List Warning)
  popped (settings, inl e) = inl e
  popped (settings, inr entries) = top_checked settings entries (reject_retired_keys settings)

  -- `Load`, from the settings that Viper has.
  unfoldable pub load : Table → Checked (Settings × List Warning)
  unfolding pop_scale_sets
  load settings = popped (pop_scale_sets settings)
