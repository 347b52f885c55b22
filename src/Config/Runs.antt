-- ===== src/Config/Runs.antt =====
-- The configuration of `Examples`, checked, loaded and set up as a broker.

use runscaler.Base.{
  arith, ◌≤◌, ◌≡◌, refl, str_eq, true, false, Option, none, some, List, [], ◌∷◌, map, inr,
}
use runscaler.Base.Assoc.{lookup, put, modify}
use runscaler.Base.Strings.{cut, cut_suffix, split, compact, sort, insert}
use runscaler.Base.Int.{pos, pos_part}
use runscaler.Capacity.{Broker, new_broker, register, registered, acquire, below_minimum, leased}
use runscaler.Capacity.Numbering.{marked, numbered, numbered_unique}
use runscaler.Capacity.Reach.{idle}
use runscaler.Capacity.Wiring.{
  validate_concurrent, shared_broker, register_all, effective_concurrent,
}
use runscaler.Backoff.{retry_is_valid, effective_retry}
use runscaler.Bytesize.{Float64, in_percent, parse_uint, parse_threshold, parse_size, value_from}
use runscaler.Config.{
  AllKeyed, set, remove_all, Value, text, flag, number, tables, table, Table, end, field, entry,
  no_tables, get, remove, as_table,
}
use runscaler.Config.Merge.{deep_merge}
use runscaler.Config.Keys.{
  entry_settings, single_mode_keys_set, scaleset_defaults, leaf_unused_keys, has_key_path,
  reject_retired_keys, default_retry_settings,
}
use runscaler.Config.Load.{Decoder, load, load_scale_sets, Warning}
use runscaler.Config.Loaded.{Decodes, load-Decodes}
use runscaler.Config.Settings.{Settings, ScaleSetConfig, docker_ready_timeout, is_tart}
use runscaler.Config.CacheVolumes.{
  short_volume, long_volume, collect, is_container_path, parse_cache_volume_budget,
  parse_cache_volumes,
}
use runscaler.Config.DiskGuard.{refuse, validate_disk, validate_disk-Ordered, Ordered}
use runscaler.Config.Validate.{
  apply_defaults, resolve_env_token, resolve_scale_sets, validate, validate_global,
  validate_scale_set_collection, tart_total,
}
use runscaler.Config.Startup.{validate_sets, check_config, numbers}
use runscaler.Config.Accepted.{
  HasCredential, RunnersFit, FitsProvider, validate_sound, accepted_minimum_guaranteed,
}
use runscaler.Config.Collection.{DistinctNames, check_config-DistinctNames}
use runscaler.Config.Examples.{plain, settings, scale_set, host, file_settings, own_settings}

mac-validated : validate host (scale_set "mac" "tart") ≡ none
unfolding validate refuse docker_ready_timeout retry_is_valid effective_retry
mac-validated = refl

validate_sound_example :
    (str_eq "mac" "" ≡ false)
    × RunnersFit (scale_set "mac" "tart")
    × HasCredential host (scale_set "mac" "tart") none
    × FitsProvider host (scale_set "mac" "tart")
validate_sound_example = validate_sound host (scale_set "mac" "tart") mac-validated

settings-checked : check_config host settings ≡ none
unfolding check_config validate_disk validate_sets resolve_scale_sets resolve_env_token
    apply_defaults is_tart validate validate_global refuse docker_ready_timeout retry_is_valid
    effective_retry validate_concurrent validate_scale_set_collection parse_cache_volumes
    short_volume long_volume collect is_container_path parse_cache_volume_budget cut put lookup
    modify parse_threshold parse_size cut_suffix parse_uint value_from
settings-checked = refl

check_config-DistinctNames_example :
    DistinctNames (resolve_scale_sets host settings)
    × (tart_total (λ ss. pos_part ss.min_runners) (resolve_scale_sets host settings) ≤ 2)
    × (tart_total (λ ss. pos_part ss.tart.pool_size) (resolve_scale_sets host settings) ≤ 2)
check_config-DistinctNames_example = check_config-DistinctNames host settings settings-checked

abbrev wired : Broker
wired = registered (registered (new_broker (pos 3)) (marked 0) (pos 1)) (marked 1) (pos 1)

wired-set_up :
    shared_broker numbered (pos 3) (map numbers (resolve_scale_sets host settings)) ≡ some wired
unfolding shared_broker register_all register new_broker effective_concurrent lookup
    resolve_scale_sets resolve_env_token apply_defaults is_tart
wired-set_up = refl

wired-below : below_minimum wired (marked 0) ≡ true
unfolding new_broker lookup
wired-below = refl

accepted_minimum_guaranteed_example :
    (acquire wired false (some (marked 0))).1 ≡ leased wired.next_ticket
accepted_minimum_guaranteed_example =
    accepted_minimum_guaranteed host numbered numbered_unique settings wired wired (marked 0)
      settings-checked wired-set_up idle wired-below

-- A decoder that knows the key "name".
abbrev named : Option Value → ScaleSetConfig
named (some (text s)) = scale_set s ""
named _ = scale_set "" ""

abbrev decoder : Decoder
decoder = record {
  decode_settings = λ t. some (settings, []);
  decode_scale_set = λ t. some (named (get "name" t), "typo" ∷ []);
}

abbrev file : Table
file = field "scaleset" (tables (entry own_settings no_tables)) file_settings

abbrev file_loaded : Settings
file_loaded = record settings { scale_sets = scale_set "linux" "" ∷ [] }

abbrev file_warnings : List Warning
file_warnings = runscaler.Config.Load.ignored_keys ("url" ∷ []) ∷ []

file-load : load decoder file ≡ inr (file_loaded, file_warnings)
unfolding load get reject_retired_keys remove as_table load_scale_sets entry_settings
    single_mode_keys_set deep_merge set scaleset_defaults leaf_unused_keys remove_all compact sort
    insert has_key_path split
file-load = refl

load-Decodes_example :
    (reject_retired_keys (remove "scaleset" file) ≡ none)
    × Decodes decoder
        (deep_merge (field "retry" (table default_retry_settings) end) (remove "scaleset" file))
        (own_settings ∷ [])
        file_loaded.scale_sets
unfolding get
load-Decodes_example =
    load-Decodes decoder file own_settings [] file_loaded file_warnings refl file-load

disk-validated : validate_disk plain.float64 settings.disk ≡ none
unfolding validate_disk refuse parse_threshold parse_size cut_suffix parse_uint value_from
disk-validated = refl

abbrev floats : Float64
floats = plain.float64

floats_comparable :
    (a b : floats.Percent)
    → in_percent floats a ≡ true
    → in_percent floats b ≡ true
    → floats.at_least a b ≡ false
    → floats.below a b ≡ true
floats_comparable a b h k e = ground (arith, e)

validate_disk-Ordered_example :
    Ordered floats settings.disk (parse_threshold floats "10%") (parse_threshold floats "20%")
validate_disk-Ordered_example =
    validate_disk-Ordered floats floats_comparable settings.disk disk-validated
