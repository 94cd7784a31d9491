-- ===== src/Configs/Origin.antt =====
-- src/configs.rs: what the settings of the server promise.
use konnector.Prelude.{◌⊎◌, false, ◌≡◌, ◌<◌, true, none, some, Text, is_empty, trim}
use konnector.Configs.Types.{ProxyTarget}
use konnector.Configs.Tls.{IsResolved}
use konnector.Configs.Root.{
  RootConfig, RootSettings, Machine, root_settings, default_settings, root_config_path,
  load_root_settings, root_proxy_from_settings, root_proxy_from_env, config_dir, server,
}

-- Where a root proxy comes from: `ROOT_PROXY`, which wins, or a root file that was read and parsed,
-- that is enabled and sets one of upstream and proxy.
pub data ProxyOrigin (machine : Machine) (target : ProxyTarget) : Type 0 where
  environment : root_proxy_from_env machine.env ≡ some target → ProxyOrigin machine target
  root_file :
      (path raw : Text) (config : RootConfig) (settings : RootSettings)
      → root_proxy_from_env machine.env ≡ none
      → root_config_path machine.files
          (config_dir machine.env machine.files machine.production_config_dir)
        ≡ some path
      → machine.files.read path ≡ some raw
      → machine.files.parse_root raw ≡ some config
      → root_settings config ≡ some settings
      → settings.enabled ≡ true
      → root_proxy_from_settings settings ≡ some target
      → ProxyOrigin machine target

-- The settings that are loaded from the root file, if there is one.
abbrev pub root_of : Machine → RootSettings
root_of machine =
    (load_root_settings machine.files
      (config_dir machine.env machine.files machine.production_config_dir)).1

-- A root file that is there, filled and parsed, and sets at most one of upstream and proxy.
pub record HasRootFile (machine : Machine) (config : RootConfig) : Type 0 where
  pub path : Text
  pub raw : Text
  pub found :
      root_config_path machine.files
        (config_dir machine.env machine.files machine.production_config_dir)
      ≡ some path
  pub read : machine.files.read path ≡ some raw
  pub filled : is_empty (trim raw) ≡ false
  pub parsed : machine.files.parse_root raw ≡ some config
  pub single : (config.upstream ≡ none) ⊎ (config.proxy ≡ none)

-- What the server is given: at least one thread, HTTPS as it is resolved from the root file and the
-- environment, and a root proxy only from its origin.
pub record IsConfigured (machine : Machine) : Type 0 where
  pub threaded : 0 < (server machine).threads
  pub resolved :
      (config : RootConfig)
      → HasRootFile machine config
      → IsResolved machine.env machine.ssl_dir config.tls
          (server machine).https
          (server machine).tls_provider
  pub resolved_without :
      root_config_path machine.files
          (config_dir machine.env machine.files machine.production_config_dir)
        ≡ none
      → IsResolved machine.env machine.ssl_dir default_settings.tls
          (server machine).https
          (server machine).tls_provider
  pub proxied :
      (target : ProxyTarget)
      → (server machine).root_proxy ≡ some target
      → ProxyOrigin machine target
