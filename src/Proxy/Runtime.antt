-- ===== src/Proxy/Runtime.antt =====
-- src/proxy/runtime.rs: a site as it runs, and the context of one request; and the state of
-- src/path_rewrite.rs that the context holds. The cache's storage and the load balancer are objects
-- of pingora: a function that asks the load balancer takes its answer as an argument.
use konnector.Prelude.{
  ℕ, Bool, false, Option, none, some, List, Text, get_elem?, if◌then◌else◌, ◌==◌,
}
use konnector.Configs.Listen.{ListenMode}
use konnector.Configs.Traffic.{TrafficMode}
use konnector.Configs.Types.{
  UpstreamConfig, InternalRouteConfig, RedirectRule, AccessPolicy, CacheConfig, ForwardingConfig,
  LogLevel,
}

pub data UpstreamRuntime : Type 0 where
  direct : UpstreamConfig → UpstreamRuntime
  load_balanced : List UpstreamConfig → UpstreamRuntime

-- UpstreamRuntime::get
unfoldable pub upstream_at : UpstreamRuntime → ℕ → Option UpstreamConfig
upstream_at (direct u) index = if index == 0 then some u else none
upstream_at (load_balanced us) index = get_elem? us index

pub record SiteRuntime : Type 0 where
  pub domains : List Text
  pub target : UpstreamRuntime
  pub internal_routes : List InternalRouteConfig
  pub redirects : List RedirectRule
  pub access : AccessPolicy
  pub cache : CacheConfig
  pub forwarding : ForwardingConfig
  pub logging : LogLevel
  pub listen : ListenMode
  pub traffic : TrafficMode
  pub redirect_https : Bool
  pub source_file : Text

-- `buffer` holds bytes.
pub record PathRewriteState : Type 0 where
  pub prefix : Text
  pub rewrite_body : Bool
  pub buffer : List ℕ
  pub upstream_origins : List Text
  pub public_origin : Text

pub record RequestContext : Type 0 where
  pub site : Option ℕ
  pub upstream : Option ℕ
  pub internal_route : Option ℕ
  pub path_rewrite : Option PathRewriteState
  pub skip_access_log : Bool
  pub proxied : Bool
  pub websocket : Bool
  pub started_at : Option ℕ

-- RequestContext::default
abbrev pub fresh_context : RequestContext
fresh_context = record {
  site = none;
  upstream = none;
  internal_route = none;
  path_rewrite = none;
  skip_access_log = false;
  proxied = false;
  websocket = false;
  started_at = none;
}
