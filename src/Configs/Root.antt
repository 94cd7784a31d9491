-- ===== src/Configs/Root.antt =====
-- src/configs.rs: the root file and the settings of the server. Whether a path is a file, the text
-- of a file and serde's parser are parameters; a `RootConfig` is the YAML with its defaults filled
-- in, without `tls.auto`, which is not read.
use konnector.Prelude.{
  ℕ, Bool, false, not, ◌&&◌, Option, none, some, [], ◌∷◌, if◌then◌else◌, ok, err, Text, codes,
  is_empty, trim, is_some, or_else, option_map, find, unwrap_or, leb, Checked,
}
use konnector.Prelude.FilePath.{join_path}
use konnector.Configs.Types.{
  ProxyTarget, direct, HttpVersion, auto, LogLevel, UpstreamConfig, target_with_default,
}
use konnector.Configs.Env.{Env, env_string, env_u64, env_bool}
use konnector.Configs.Tls.{HttpsConfig, TlsProviderConfig, RootTlsSettings, resolve_tls_config}

pub record ServerConfig : Type 0 where
  pub http_listen : Text
  pub https_listen : Text
  pub threads : ℕ
  pub https : Option HttpsConfig
  pub tls_provider : TlsProviderConfig
  pub root_proxy : Option ProxyTarget
  pub logging : LogLevel

pub record RootConfig : Type 0 where
  pub enabled : Bool
  pub upstream : Option UpstreamConfig
  pub proxy : Option ProxyTarget
  pub logging : LogLevel
  pub http_version : HttpVersion
  pub tls : RootTlsSettings

pub record RootSettings : Type 0 where
  pub enabled : Bool
  pub target : Option ProxyTarget
  pub logging : LogLevel
  pub http_version : HttpVersion
  pub tls : RootTlsSettings

unfoldable pub default_settings : RootSettings
default_settings = record {
  enabled = false;
  target = none;
  logging = LogLevel.info;
  http_version = auto;
  tls = record { enabled = false; staging = false };
}

-- The upstream and the proxy target, of which one at most is set; no value stands for both.
abbrev single_target : Option UpstreamConfig → Option ProxyTarget → Option (Option ProxyTarget)
single_target (some upstream) (some proxy) = none
single_target (some upstream) none = some (some (direct upstream))
single_target none (some proxy) = some (some proxy)
single_target none none = some none

-- `TryFrom<RootConfig>`; the error is that both are set.
unfoldable pub root_settings : RootConfig → Option RootSettings
root_settings config = elim (single_target config.upstream config.proxy) [
  | none ↦ none
  | some target ↦ some (record {
    enabled = config.enabled;
    target = target;
    logging = config.logging;
    http_version = config.http_version;
    tls = config.tls;
  })
]

-- The file system and the YAML parser, as the root file is read.
pub record Files : Type 0 where
  pub is_file : Text → Bool
  pub is_dir : Text → Bool
  pub read : Text → Option Text
  pub parse_root : Text → Option RootConfig

unfoldable pub root_config_path : Files → Text → Option Text
unfolding join_path
root_config_path files directory =
    find files.is_file
      (join_path directory (codes "root.yaml") ∷ join_path directory (codes "root.yml") ∷ [])

unfoldable pub settings_of_text : Files → Text → RootSettings
unfolding root_settings default_settings trim
settings_of_text files raw =
    if is_empty (trim raw) then default_settings else elim (files.parse_root raw) [
      | none ↦ default_settings
      | some config ↦ unwrap_or (root_settings config) default_settings
    ]

unfoldable pub load_root_settings : Files → Text → Option Text × RootSettings
unfolding root_config_path settings_of_text default_settings
load_root_settings files directory = elim (root_config_path files directory) [
  | none ↦ (none, default_settings)
  | some path ↦ (
    some path,
    elim (files.read path) [ none ↦ default_settings | some raw ↦ settings_of_text files raw ],
  )
]

unfoldable pub root_proxy_from_settings : RootSettings → Option ProxyTarget
unfolding target_with_default
root_proxy_from_settings settings =
    if not settings.enabled
    then none
    else option_map (target_with_default settings.http_version) settings.target

unfoldable pub root_proxy_from_env : Env → Option ProxyTarget
unfolding env_bool trim
root_proxy_from_env env = elim (env (codes "ROOT_PROXY")) [
  | none ↦ none
  | some address ↦
      if is_empty (trim address)
      then none
      else some (
          direct (record {
            address = address;
            tls = env_bool env (codes "ROOT_PROXY_TLS") false;
            sni = unwrap_or (env (codes "ROOT_PROXY_SNI")) [];
            host = env (codes "ROOT_PROXY_HOST");
            ca_path = env (codes "ROOT_PROXY_CA_PATH");
            base_path = [];
            http_version = auto;
          }))
]

-- The label of the error is the path of the file, or `root.yaml`.
unfoldable pub validate_root_file : Files → Text → Checked Text
unfolding load_root_settings
validate_root_file files directory =
    let (path, settings) = load_root_settings files directory in
    if settings.enabled && not (is_some settings.target)
    then err (unwrap_or path (codes "root.yaml"))
    else ok tt

-- The directory that `CONFIG_DIR` names, or the one of the installation where it is there.
unfoldable pub config_dir : Env → Files → Text → Text
unfolding trim
config_dir env files production =
    let otherwise = if files.is_dir production then production else codes "configs" in
    elim (env (codes "CONFIG_DIR")) [
      | none ↦ otherwise
      | some dir ↦ if is_empty (trim dir) then otherwise else trim dir
    ]

-- `default_threads`, where the parallelism of the machine may not be known.
unfoldable pub default_threads : Option ℕ → ℕ
default_threads parallelism = let n = unwrap_or parallelism 4 in if leb 4 n then n else 4

-- What `server` reads of the machine.
pub record Machine : Type 0 where
  pub env : Env
  pub files : Files
  pub parallelism : Option ℕ
  pub production_config_dir : Text
  pub ssl_dir : Text

unfoldable pub server : Machine → ServerConfig
unfolding config_dir load_root_settings default_threads root_proxy_from_env root_proxy_from_settings
    resolve_tls_config env_string env_u64
server machine =
    let directory = config_dir machine.env machine.files machine.production_config_dir in
    let (path, root) = load_root_settings machine.files directory in
    let (https, tls_provider) = resolve_tls_config machine.env machine.ssl_dir root.tls in
    let threads = env_u64 machine.env (codes "THREADS") (default_threads machine.parallelism) in
    record {
      http_listen = env_string machine.env (codes "HTTP_LISTEN") (codes "0.0.0.0:80");
      https_listen = env_string machine.env (codes "HTTPS_LISTEN") (codes "0.0.0.0:443");
      threads = if leb 1 threads then threads else 1;
      https = https;
      tls_provider = tls_provider;
      root_proxy = or_else (root_proxy_from_env machine.env) (root_proxy_from_settings root);
      logging = root.logging;
    }
