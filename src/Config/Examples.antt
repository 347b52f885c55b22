-- ===== src/Config/Examples.antt =====
-- A configuration with two scale sets, as it is loaded, checked and mounted.
use runscaler.Base.{
  ltb, leb, ℕ, ◌≡◌, refl, inr, String, str_eq, true, false, not, none, some, List, [], ◌∷◌, All,
}
use runscaler.Base.Int.{pos}
use runscaler.Base.Assoc.{lookup, put, modify}
use runscaler.Base.Strings.{cut, cut_suffix, has_prefix}
use runscaler.Bytesize.{parse_uint, parse_threshold, parse_size, value_from}
use runscaler.Config.{AllKeyed, text, flag, number, table, Table, end, field, get, as_table}
use runscaler.Config.Paths.{value_at}
use runscaler.Config.Keys.{entry_settings}
use runscaler.Config.Inherit.{entry_settings-override, entry_settings-identity}
use runscaler.Config.Settings.{Settings, ScaleSetConfig, DockerConfig, TartConfig, CacheVolumeMount}
use runscaler.Config.CacheVolumes.{
  short_volume, long_volume, collect, is_container_path, parse_cache_volume_budget, Syntax,
  parse_cache_volumes,
}
use runscaler.Config.Mounts.{IsMountable, DistinctPaths, parse_cache_volumes-DistinctPaths}
use runscaler.Config.Validate.{Host}

abbrev pub file_settings : Table
file_settings = field "url" (text "https://github.com/o") (
    field "max-runners" (number (pos 3)) (
      field "docker" (table (field "memory" (number (pos 512)) (field "dind" (flag true) end)))
        end))

abbrev pub own_settings : Table
own_settings =
    field "name" (text "linux") (field "docker" (table (field "dind" (flag false) end)) end)

own-AllKeyed : AllKeyed own_settings
unfolding get
own-AllKeyed = (refl, tt, (refl, (refl, tt, tt), tt))

file-AllKeyed : AllKeyed file_settings
unfolding get
file-AllKeyed = (refl, tt, (refl, tt, (refl, (refl, tt, (refl, tt, tt)), tt)))

entry_settings-override_example :
    value_at ("docker" ∷ "dind" ∷ []) (some (table (entry_settings file_settings own_settings)))
    ≡ some (flag false)
unfolding value_at get as_table
entry_settings-override_example =
    entry_settings-override file_settings own_settings ("docker" ∷ "dind" ∷ []) (flag false)
      own-AllKeyed refl refl

entry_settings-identity_example :
    get "url" (entry_settings file_settings own_settings) ≡ get "url" own_settings
entry_settings-identity_example =
    entry_settings-identity file_settings own_settings "url" file-AllKeyed own-AllKeyed refl

-- Text that is read as it stands.
abbrev pub plain : Syntax
plain = record {
  is_volume_name = λ s. not (str_eq s "");
  is_abs = λ s. has_prefix s "/";
  clean = λ s. s;
  float64 = record {
    Percent = ℕ;
    nought = 0;
    hundred = 100;
    parse_float = parse_uint;
    below = ltb;
    to_upper = λ s. s;
    at_least = λ a b. leb b a;
  };
}

abbrev docker_config : DockerConfig
docker_config = record {
  readiness = none;
  ready_timeout = none;
  socket = "";
  dind = none;
  shared_volume = "";
  memory = pos 0;
  cpu = pos 0;
  pids_limit = pos 0;
  platform = "";
  network = "";
  shared_volume_name = "";
  cache_volumes = "go:/go" ∷ "npm:/npm" ∷ [];
  cache = record { name = "npm"; path = "/root/.npm"; budget = "7B"; on_exceed = "wipe" } ∷ [];
  shared_volume_max_age = pos 0;
  shared_volume_cleanup_interval = pos 0;
  buildx_cleanup = none;
  buildx_cleanup_ttl = pos 0;
  buildx_cleanup_interval = pos 0;
  prune = none;
  prune_interval = pos 0;
  prune_ttl = pos 0;
  build_cache_max_age = pos 0;
  build_cache_budget_gb = pos 0;
}

abbrev tart_config : TartConfig
tart_config = record {
  home = "";
  runner_dir = "";
  cpu = pos 0;
  memory = pos 0;
  pool_size = pos 1;
  mtu = pos 0;
  dns = [];
  net_bridged = "";
  cache_cleanup = none;
  cache_max_age = pos 0;
  cache_budget_gb = pos 0;
  cache_cleanup_interval = pos 0;
}

abbrev pub scale_set : String → String → ScaleSetConfig
scale_set name provider = record {
  registration_url = "https://github.com/o";
  scale_set_name = name;
  token = "t";
  max_runners = pos 2;
  min_runners = pos 1;
  labels = [];
  runner_group = "default";
  runner_image = "image";
  provider = provider;
  github_app = none;
  retry = none;
  disable_update = none;
  docker = docker_config;
  tart = tart_config;
}

abbrev pub settings : Settings
settings = record {
  log_level = "info";
  log_format = "text";
  health_port = pos 8080;
  health_address = "127.0.0.1";
  dry_run = false;
  log_file = none;
  concurrent = pos 3;
  drain_timeout = none;
  defaults = scale_set "" "";
  disk = record {
    guard = none;
    min_free = "";
    target_free = "";
    interval = pos 0;
    max_tier = pos 0;
  };
  diagnostics = record { enabled = none; capture_logs = false };
  scale_sets = scale_set "linux" "" ∷ scale_set "mac" "tart" ∷ [];
}

abbrev mounts : List CacheVolumeMount
mounts =
    record { volume = "go"; path = "/go"; budget_bytes = 0; on_exceed = "" }
    ∷ record { volume = "npm"; path = "/root/.npm"; budget_bytes = 7; on_exceed = "wipe" }
    ∷ []

mounts-parsed : parse_cache_volumes plain docker_config ≡ inr mounts
unfolding parse_cache_volumes short_volume long_volume collect is_container_path cut put lookup
    modify parse_cache_volume_budget parse_threshold parse_size cut_suffix parse_uint value_from
mounts-parsed = refl

parse_cache_volumes-DistinctPaths_example :
    All (IsMountable plain) mounts × DistinctPaths plain mounts
parse_cache_volumes-DistinctPaths_example =
    parse_cache_volumes-DistinctPaths plain docker_config mounts mounts-parsed

abbrev pub host : Host
host = record {
  syntax = plain;
  parse_request_uri =
      λ s. some (record { scheme = "https"; host = "github.com"; has_user = false; path = "/o" });
  parse_url =
      λ s. some (record { scheme = "https"; host = "github.com"; has_user = false; path = "/o" });
  trim_slashes = λ s. s;
  blank = λ s. str_eq s "";
  is_env_name = λ s. true;
  is_address = λ s. true;
  has_any = λ s t. false;
  to_lower = λ s. s;
  getenv = λ s. "";
}
