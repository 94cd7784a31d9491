-- ===== src/Proxy/Routing.antt =====
-- src/proxy/routing.rs: the routing table that is built from the accepted sites and the root proxy.
-- The services for health checks and the cache's storage, objects of pingora, are not modelled, nor
-- is the panic on a load balancer's address that does not parse.
pub mod Shape
pub mod Exact
use konnector.Prelude.{
  ℕ, false, Option, none, some, List, [], ◌∷◌, ◌++◌, map, Text, codes, is_empty, if◌then◌else◌,
  length, option_map, reject_if, Result, ok, err,
}
use konnector.Configs.Listen
use konnector.Configs.Traffic
use konnector.Configs.Types.{
  SiteConfig, ProxyTarget, LogLevel, resolved_logging, primary_domain, all_paths, ForwardingConfig,
}
use konnector.Proxy.Runtime.{SiteRuntime, UpstreamRuntime}

pub record ProxyRouting : Type 0 where
  pub sites : List SiteRuntime
  pub root_site : Option ℕ
  pub default_logging : LogLevel

unfoldable pub upstream_runtime_from_target : ProxyTarget → UpstreamRuntime
upstream_runtime_from_target (ProxyTarget.direct u) = UpstreamRuntime.direct u
upstream_runtime_from_target (ProxyTarget.load_balanced us check interval) =
    UpstreamRuntime.load_balanced us

-- The body of the loop of `build_proxy_routing`.
unfoldable pub site_runtime : LogLevel → SiteConfig → SiteRuntime
unfolding upstream_runtime_from_target resolved_logging primary_domain
site_runtime default site = record {
  domains = site.domains;
  target = upstream_runtime_from_target site.target;
  internal_routes = site.internal_routes;
  redirects = site.redirects;
  access = site.access;
  cache = site.cache;
  forwarding = site.forwarding;
  logging = resolved_logging site default;
  listen = site.listen;
  traffic = site.traffic;
  redirect_https = site.redirect_https;
  source_file = if is_empty site.source_file then primary_domain site.domains else site.source_file;
}

unfoldable pub root_runtime : LogLevel → ProxyTarget → SiteRuntime
unfolding upstream_runtime_from_target
root_runtime default target = record {
  domains = [];
  target = upstream_runtime_from_target target;
  internal_routes = [];
  redirects = [];
  access = all_paths;
  cache = record { enabled = false; max_file_bytes = 0 };
  forwarding = ForwardingConfig.direct;
  logging = default;
  listen = Listen.both;
  traffic = Traffic.both;
  redirect_https = false;
  source_file = codes "root";
}

with_root : LogLevel → Option ProxyTarget → List SiteRuntime → List SiteRuntime
with_root default none sites = sites
with_root default (some target) sites = sites ++ root_runtime default target ∷ []

unfoldable pub build_proxy_routing : List SiteConfig → Option ProxyTarget → LogLevel → ProxyRouting
unfolding site_runtime root_runtime with_root
build_proxy_routing configs root default =
    let sites = map (site_runtime default) configs in
    record {
      sites = with_root default root sites;
      root_site = option_map (λ target. length sites) root;
      default_logging = default;
    }
