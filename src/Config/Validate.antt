-- ===== src/Config/Validate.antt =====
-- The checks of a configuration: `ScaleSetConfig.Validate` and `ValidateGlobal` of
-- internal/config/config.go, `validateAuthentication` of auth.go, `validateScaleSetCollection` of
-- cmd/runner/main.go, and what is filled in before (`ResolveScaleSets`). What Go's libraries say of
-- a text (`url`, `netip`, `filepath`, `strings`) and of the environment is a parameter.
use runscaler.Base.{
  ℕ, ◌+◌, String, str_eq, Bool, true, false, ◌&&◌, ◌||◌, not, Option, none, some, ◌⊎◌, inl, inr,
  List, [], ◌∷◌, map, ltb, if◌then◌else◌,
}
use runscaler.Base.Int.{ℤ, pos, negsuc, leb_ℤ, ltb_ℤ, pos_part}
use runscaler.Base.Strings.{split, mem, has_prefix, trim_prefix}
use runscaler.Backoff.{retry_is_valid, effective_retry}
use runscaler.Config.Settings.{
  ScaleSetConfig, Settings, DockerConfig, TartConfig, GitHubAppConfig, CacheVolumeMount,
  default_provider, default_docker_socket, default_tart_runner_dir, docker_ready_timeout, is_tart,
}
use runscaler.Config.DiskGuard.{DiskError, refuse, validate_disk}
use runscaler.Config.CacheVolumes.{Syntax, CacheError, is_container_path, parse_cache_volumes}

pub record Url : Type 0 where
  pub scheme : String
  pub host : String
  pub has_user : Bool
  pub path : String

-- `blank` is `TrimSpace(s) == ""`, `trim_slashes` is `Trim(s, "/")`.
pub record Host : Type 1 where
  pub syntax : Syntax
  pub parse_request_uri : String → Option Url
  pub parse_url : String → Option Url
  pub trim_slashes : String → String
  pub blank : String → Bool
  pub is_env_name : String → Bool
  pub is_address : String → Bool
  pub has_any : String → String → Bool
  pub to_lower : String → String
  pub getenv : String → String

pub data ConfigError : Type 0 where
  ready_timeout retry_settings no_url bad_url insecure_url no_name no_token token_and_app
        no_client_id bad_installation_id bad_private_key bad_key_file bad_key_env enterprise_app
        negative_min no_runners min_above_max no_image bad_platform negative_limit bad_shared_name
        bad_shared_volume shared_conflict tart_max bad_pool_size bad_mtu bad_dns bad_interface
        bad_provider bad_log_level bad_log_format bad_health_port negative_concurrent :
      ConfigError
  cache_error : CacheError → ConfigError
  disk_error : DiskError → ConfigError

abbrev pub is_positive : ℤ → Bool
is_positive n = ltb_ℤ (pos 0) n

abbrev pub is_negative : ℤ → Bool
is_negative n = ltb_ℤ n (pos 0)

-- `applyDefaults`.
unfoldable pub apply_defaults : ScaleSetConfig → ScaleSetConfig
unfolding is_tart
apply_defaults ss =
    let provider = if str_eq ss.provider "" then default_provider else ss.provider in
    record ss {
      provider = provider;
      docker = record (ss.docker) {
        socket =
            if str_eq provider default_provider && str_eq ss.docker.socket ""
            then default_docker_socket
            else ss.docker.socket;
      };
      tart = record (ss.tart) {
        runner_dir =
            if str_eq provider "tart" && str_eq ss.tart.runner_dir ""
            then default_tart_runner_dir
            else ss.tart.runner_dir;
      };
    }

module _ (h : Host) where
  open h use {syntax}

  abbrev pub env_token : String → String
  env_token token =
      if has_prefix token "env:"
      then h.getenv (trim_prefix token "env:")
      else if str_eq token ""
      then h.getenv "RUNNER_TOKEN"
      else token

  -- `resolveEnvToken`: a variable that is not set reads as the empty text.
  unfoldable pub resolve_env_token : ScaleSetConfig → ScaleSetConfig
  resolve_env_token ss = elim ss.github_app [
    | some _ ↦ ss
    | none ↦ record ss { token = env_token ss.token }
  ]

  abbrev pub resolved : ScaleSetConfig → ScaleSetConfig
  resolved ss = resolve_env_token (apply_defaults ss)

  unfoldable pub resolve_scale_sets : Settings → List ScaleSetConfig
  resolve_scale_sets c = elim c.scale_sets [
    | [] ↦ resolved c.defaults ∷ []
    | ss ∷ rest ↦ map resolved (ss ∷ rest)
  ]

  abbrev pub is_enterprise : Option Url → Bool
  is_enterprise none = false
  is_enterprise (some u) = has_prefix (h.trim_slashes u.path) "enterprises/"

  abbrev pub validate_app : ScaleSetConfig → GitHubAppConfig → Option ConfigError
  validate_app ss app = refuse (not (str_eq ss.token "")) token_and_app (
      refuse (h.blank app.client_id) no_client_id (
        refuse (not (is_positive app.installation_id)) bad_installation_id (
          refuse
            (str_eq app.private_key_file "" && str_eq app.private_key_env ""
              || not (str_eq app.private_key_file "") && not (str_eq app.private_key_env ""))
            bad_private_key
            (refuse
              (not (str_eq app.private_key_file "") && not (syntax.is_abs app.private_key_file))
              bad_key_file
              (refuse
                (not (str_eq app.private_key_env "") && not (h.is_env_name app.private_key_env))
                bad_key_env
                (refuse (is_enterprise (h.parse_url ss.registration_url)) enterprise_app none))))))

  -- `validateAuthentication`.
  abbrev pub validate_authentication : ScaleSetConfig → Option GitHubAppConfig → Option ConfigError
  validate_authentication ss none = refuse (str_eq ss.token "") no_token none
  validate_authentication ss (some app) = validate_app ss app

  abbrev pub bad_parts : List String → Bool
  bad_parts (os ∷ arch ∷ []) = str_eq os "" || str_eq arch ""
  bad_parts (os ∷ arch ∷ variant ∷ []) = str_eq os "" || str_eq arch "" || str_eq variant ""
  bad_parts _ = true

  abbrev pub any_path : String → List CacheVolumeMount → Bool
  any_path path [] = false
  any_path path (m ∷ ms) = str_eq m.path path || any_path path ms

  abbrev pub validate_shared : DockerConfig → List CacheVolumeMount → Option ConfigError
  validate_shared dc mounts =
      refuse
        (is_negative dc.memory
          || is_negative dc.cpu
          || is_negative dc.pids_limit
          || is_negative dc.build_cache_budget_gb)
        negative_limit
        (refuse
          (not (str_eq dc.shared_volume_name "")
            && not (syntax.is_volume_name dc.shared_volume_name))
          bad_shared_name
          (if str_eq dc.shared_volume ""
            then none
            else refuse (not (is_container_path syntax dc.shared_volume)) bad_shared_volume
                (refuse (any_path dc.shared_volume mounts) shared_conflict none)))

  abbrev pub validate_mounts :
      DockerConfig → CacheError ⊎ List CacheVolumeMount → Option ConfigError
  validate_mounts dc (inl e) = some (cache_error e)
  validate_mounts dc (inr mounts) = validate_shared dc mounts

  abbrev pub validate_docker : DockerConfig → Option ConfigError
  validate_docker dc =
      refuse (not (str_eq dc.platform "") && bad_parts (split "/" dc.platform)) bad_platform
        (validate_mounts dc (parse_cache_volumes syntax dc))

  abbrev pub any_not : (String → Bool) → List String → Bool
  any_not f [] = false
  any_not f (s ∷ ss) = not (f s) || any_not f ss

  abbrev pub bad_net : String → Bool
  bad_net b = not (str_eq b "") && (has_prefix b "-" || h.has_any b " \t\n=")

  abbrev pub validate_tart : ℤ → TartConfig → Option ConfigError
  validate_tart max_runners tc = refuse (ltb_ℤ (pos 2) max_runners) tart_max (
      refuse (is_negative tc.pool_size || ltb_ℤ max_runners tc.pool_size) bad_pool_size (
        refuse
          (not (leb_ℤ (pos 0) tc.mtu && leb_ℤ tc.mtu (pos 0))
            && not (leb_ℤ (negsuc 0) tc.mtu && leb_ℤ tc.mtu (negsuc 0))
            && (ltb_ℤ tc.mtu (pos 1280) || ltb_ℤ (pos 1500) tc.mtu))
          bad_mtu
          (refuse (any_not h.is_address tc.dns) bad_dns
            (refuse (bad_net tc.net_bridged) bad_interface none))))

  abbrev pub validate_provider : ScaleSetConfig → Option ConfigError
  validate_provider ss =
      if str_eq ss.provider default_provider
      then validate_docker ss.docker
      else if str_eq ss.provider "tart"
      then validate_tart ss.max_runners ss.tart
      else some bad_provider

  abbrev pub validate_url : Option Url → Option ConfigError → Option ConfigError
  validate_url none rest = some bad_url
  validate_url (some u) rest =
      refuse (not (str_eq u.scheme "https") || str_eq u.host "" || u.has_user) insecure_url rest

  abbrev pub first : Option ConfigError → Option ConfigError → Option ConfigError
  first none rest = rest
  first (some e) rest = some e

  abbrev pub validate_runners : ScaleSetConfig → Option ConfigError
  validate_runners ss = refuse (is_negative ss.min_runners) negative_min (
      refuse (ltb_ℤ ss.max_runners (pos 1)) no_runners (
        refuse (ltb_ℤ ss.max_runners ss.min_runners) min_above_max
          (refuse (str_eq ss.runner_image "") no_image (validate_provider ss))))

  -- `ScaleSetConfig.Validate`.
  unfoldable pub validate : ScaleSetConfig → Option ConfigError
  unfolding docker_ready_timeout retry_is_valid effective_retry
  validate ss = refuse (not (is_positive (docker_ready_timeout ss))) ready_timeout (
      refuse (not (retry_is_valid (effective_retry ss.retry))) retry_settings (
        refuse (str_eq ss.registration_url "") no_url (
          validate_url (h.parse_request_uri ss.registration_url) (
            refuse (str_eq ss.scale_set_name "") no_name
              (first (validate_authentication ss ss.github_app) (validate_runners ss))))))

  abbrev pub disk_checked : Option DiskError → Option ConfigError
  disk_checked none = none
  disk_checked (some e) = some (disk_error e)

  -- `ValidateGlobal`.
  unfoldable pub validate_global : Settings → Option ConfigError
  unfolding validate_disk
  validate_global c =
      refuse (not (mem (h.to_lower c.log_level) ("debug" ∷ "info" ∷ "warn" ∷ "error" ∷ [])))
        bad_log_level
        (refuse (not (mem (h.to_lower c.log_format) ("text" ∷ "json" ∷ []))) bad_log_format (
          refuse (is_negative c.health_port || ltb_ℤ (pos 65535) c.health_port) bad_health_port (
            refuse (is_negative c.concurrent) negative_concurrent
              (disk_checked (validate_disk syntax.float64 c.disk)))))

-- What `validateScaleSetCollection` refuses.
pub data CollectionError : Type 0 where
  duplicate_scale_set : String → CollectionError
  tart_min_above_host tart_pool_above_host : CollectionError

abbrev pub tart_total : (ScaleSetConfig → ℕ) → List ScaleSetConfig → ℕ
tart_total f [] = 0
tart_total f (ss ∷ rest) = let t = tart_total f rest in if is_tart ss then f ss + t else t

abbrev pub first_duplicate : List String → List ScaleSetConfig → Option CollectionError
first_duplicate names [] = none
first_duplicate names (ss ∷ rest) =
    refuse (mem ss.scale_set_name names) (duplicate_scale_set ss.scale_set_name)
      (first_duplicate (ss.scale_set_name ∷ names) rest)

abbrev pub totals_checked : List ScaleSetConfig → Option CollectionError → Option CollectionError
totals_checked sets (some e) = some e
totals_checked sets none =
    refuse (ltb 2 (tart_total (λ ss. pos_part ss.min_runners) sets)) tart_min_above_host (
      refuse (ltb 2 (tart_total (λ ss. pos_part ss.tart.pool_size) sets)) tart_pool_above_host none)

-- The numbers have passed `Validate`: they are not negative.
unfoldable pub validate_scale_set_collection : List ScaleSetConfig → Option CollectionError
validate_scale_set_collection sets = totals_checked sets (first_duplicate [] sets)
