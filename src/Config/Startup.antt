-- ===== src/Config/Startup.antt =====
-- The checks with which `runManager` of cmd/runner/main.go begins, up to the first client.
use runscaler.Base.{String, not, Option, none, some, List, [], ◌∷◌, map, if◌then◌else◌}
use runscaler.Base.Int.{pos_part}
use runscaler.Capacity.Wiring.{ScaleSet, validate_concurrent}
use runscaler.Config.Settings.{Settings, ScaleSetConfig}
use runscaler.Config.Validate.{
  Host, ConfigError, CollectionError, validate, validate_global, validate_scale_set_collection,
  resolve_scale_sets,
}

pub data StartupError : Type 0 where
  bad_global : ConfigError → StartupError
  bad_scale_set : String → ConfigError → StartupError
  bad_capacity : StartupError
  bad_collection : CollectionError → StartupError

-- What the capacity broker reads of a scale set that has passed `Validate`: neither number is
-- negative there (`RunnersFit` of Accepted.antt), so that nothing is cut off.
abbrev pub numbers : ScaleSetConfig → ScaleSet
numbers ss = record {
  name = ss.scale_set_name;
  min_runners = pos_part ss.min_runners;
  max_runners = pos_part ss.max_runners;
}

abbrev pub bad_set : ScaleSetConfig → Option ConfigError → Option StartupError → Option StartupError
bad_set ss none rest = rest
bad_set ss (some e) rest = some (bad_scale_set ss.scale_set_name e)

abbrev pub collection_error : Option CollectionError → Option StartupError
collection_error none = none
collection_error (some e) = some (bad_collection e)

abbrev pub global_checked : Option ConfigError → Option StartupError → Option StartupError
global_checked none rest = rest
global_checked (some e) rest = some (bad_global e)

module _ (h : Host) where
  unfoldable pub validate_sets : List ScaleSetConfig → Option StartupError → Option StartupError
  validate_sets [] rest = rest
  validate_sets (ss ∷ sets) rest = bad_set ss (validate h ss) (validate_sets sets rest)

  unfoldable pub check_config : Settings → Option StartupError
  unfolding validate_sets
  check_config c =
      let sets = resolve_scale_sets h c in
      global_checked (validate_global h c) (
        validate_sets sets (
          if not (validate_concurrent c.concurrent (map numbers sets))
          then some bad_capacity
          else collection_error (validate_scale_set_collection sets)))
