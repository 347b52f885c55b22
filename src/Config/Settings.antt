-- ===== src/Config/Settings.antt =====
-- The decoded configuration: the types of internal/config/config.go and auth.go, the constants of
-- defaults.go that a setting falls back to, and the getters. A pointer is an option; durations are
-- nanoseconds.
use runscaler.Base.{
  ℕ, String, str_eq, Bool, true, false, Option, none, some, List, [], ◌∷◌, if◌then◌else◌,
}
use runscaler.Base.Int.{ℤ, pos}
use runscaler.Backoff.{RetryConfig}

-- One `[[docker.cache]]` entry.
pub record CacheVolumeSpec : Type 0 where
  pub name : String
  pub path : String
  pub budget : String
  pub on_exceed : String

pub record CacheVolumeMount : Type 0 where
  pub volume : String
  pub path : String
  pub budget_bytes : ℕ
  pub on_exceed : String

pub record DockerConfig : Type 0 where
  pub readiness : Option Bool
  pub ready_timeout : Option ℤ
  pub socket : String
  pub dind : Option Bool
  pub shared_volume : String
  pub memory : ℤ
  pub cpu : ℤ
  pub pids_limit : ℤ
  pub platform : String
  pub network : String
  pub shared_volume_name : String
  pub cache_volumes : List String
  pub cache : List CacheVolumeSpec
  pub shared_volume_max_age : ℤ
  pub shared_volume_cleanup_interval : ℤ
  pub buildx_cleanup : Option Bool
  pub buildx_cleanup_ttl : ℤ
  pub buildx_cleanup_interval : ℤ
  pub prune : Option Bool
  pub prune_interval : ℤ
  pub prune_ttl : ℤ
  pub build_cache_max_age : ℤ
  pub build_cache_budget_gb : ℤ

pub record TartConfig : Type 0 where
  pub home : String
  pub runner_dir : String
  pub cpu : ℤ
  pub memory : ℤ
  pub pool_size : ℤ
  pub mtu : ℤ
  pub dns : List String
  pub net_bridged : String
  pub cache_cleanup : Option Bool
  pub cache_max_age : ℤ
  pub cache_budget_gb : ℤ
  pub cache_cleanup_interval : ℤ

pub record GitHubAppConfig : Type 0 where
  pub client_id : String
  pub installation_id : ℤ
  pub private_key_file : String
  pub private_key_env : String

pub record ScaleSetConfig : Type 0 where
  pub registration_url : String
  pub scale_set_name : String
  pub token : String
  pub max_runners : ℤ
  pub min_runners : ℤ
  pub labels : List String
  pub runner_group : String
  pub runner_image : String
  pub provider : String
  pub github_app : Option GitHubAppConfig
  pub retry : Option RetryConfig
  pub disable_update : Option Bool
  pub docker : DockerConfig
  pub tart : TartConfig

pub record DiskConfig : Type 0 where
  pub guard : Option Bool
  pub min_free : String
  pub target_free : String
  pub interval : ℤ
  pub max_tier : ℤ

pub record DiagnosticsConfig : Type 0 where
  pub enabled : Option Bool
  pub capture_logs : Bool

pub record Settings : Type 0 where
  pub log_level : String
  pub log_format : String
  pub health_port : ℤ
  pub health_address : String
  pub dry_run : Bool
  pub log_file : Option String
  pub concurrent : ℤ
  pub drain_timeout : Option ℤ
  pub defaults : ScaleSetConfig
  pub disk : DiskConfig
  pub diagnostics : DiagnosticsConfig
  pub scale_sets : List ScaleSetConfig

abbrev pub default_provider : String
default_provider = "docker"

abbrev pub default_docker_socket : String
default_docker_socket = "/var/run/docker.sock"

abbrev pub default_tart_runner_dir : String
default_tart_runner_dir = "/Users/admin/actions-runner"

abbrev pub default_shared_volume_name : String
default_shared_volume_name = "runner-shared"

abbrev pub default_health_address : String
default_health_address = "127.0.0.1"

-- Two hours, and five minutes.
abbrev pub default_drain_timeout : ℤ
default_drain_timeout = pos 7200000000000

abbrev pub default_ready_timeout : ℤ
default_ready_timeout = pos 300000000000

abbrev pub or_default {ℓ} : {A : Type ℓ} → A → Option A → A
or_default d none = d
or_default d (some a) = a

unfoldable pub is_dind : ScaleSetConfig → Bool
is_dind ss = or_default true ss.docker.dind

unfoldable pub shared_volume_name_of : ScaleSetConfig → String
shared_volume_name_of ss =
    if str_eq ss.docker.shared_volume_name ""
    then default_shared_volume_name
    else ss.docker.shared_volume_name

unfoldable pub is_tart : ScaleSetConfig → Bool
is_tart ss = str_eq ss.provider "tart"

unfoldable pub is_buildx_cleanup_enabled : ScaleSetConfig → Bool
is_buildx_cleanup_enabled ss = or_default false ss.docker.buildx_cleanup

unfoldable pub is_update_disabled : ScaleSetConfig → Bool
is_update_disabled ss = or_default true ss.disable_update

unfoldable pub is_docker_prune_enabled : ScaleSetConfig → Bool
is_docker_prune_enabled ss = or_default false ss.docker.prune

unfoldable pub is_tart_cache_cleanup_enabled : ScaleSetConfig → Bool
is_tart_cache_cleanup_enabled ss = or_default true ss.tart.cache_cleanup

unfoldable pub is_docker_readiness_enabled : ScaleSetConfig → Bool
is_docker_readiness_enabled ss = or_default true ss.docker.readiness

unfoldable pub docker_ready_timeout : ScaleSetConfig → ℤ
docker_ready_timeout ss = or_default default_ready_timeout ss.docker.ready_timeout

unfoldable pub is_disk_guard_enabled : Settings → Bool
is_disk_guard_enabled c = or_default true c.disk.guard

unfoldable pub effective_drain_timeout : Settings → ℤ
effective_drain_timeout c = or_default default_drain_timeout c.drain_timeout

unfoldable pub diagnostics_is_enabled : DiagnosticsConfig → Bool
diagnostics_is_enabled d = or_default true d.enabled

-- `BuildLabels`: the names of the labels; all have the type "User".
unfoldable pub build_labels : String → List String → List String
build_labels name [] = name ∷ []
build_labels name (l ∷ ls) = l ∷ ls
