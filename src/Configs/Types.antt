-- ===== src/Configs/Types.antt =====
-- src/configs.rs: the data of a site and of the server, and the small methods of these types.
use konnector.Prelude.{
  ℕ, Bool, true, false, Option, List, [], ◌∷◌, map, if◌then◌else◌, Text, codes, unwrap_or,
}
use konnector.Configs.Listen.{ListenMode}
use konnector.Configs.Traffic.{TrafficMode}

pub data HttpVersion : Type 0 where
  auto http11 http2 http3 : HttpVersion

unfoldable pub log_label : HttpVersion → Text
log_label auto = codes "auto"
log_label http11 = codes "1.1"
log_label http2 = codes "2"
log_label http3 = codes "3"

-- The ALPN of pingora, and the bytes of the custom one.
pub data Alpn : Type 0 where
  h1 h2 h2h1 : Alpn
  custom : Text → Alpn

unfoldable pub to_alpn : HttpVersion → Bool → Alpn
to_alpn http11 tls = h1
to_alpn http2 true = h2
to_alpn http2 false = h1
to_alpn http3 tls = custom (codes "h3")
to_alpn auto true = h2h1
to_alpn auto false = h1

pub data LogLevel : Type 0 where
  off error warn info debug : LogLevel

unfoldable pub is_enabled : LogLevel → Bool
is_enabled off = false
is_enabled _ = true

unfoldable pub is_debug : LogLevel → Bool
is_debug debug = true
is_debug _ = false

pub data RedirectBehavior : Type 0 where
  redirect rewrite : RedirectBehavior

pub data RedirectMatch : Type 0 where
  exact prefix : RedirectMatch

pub record RedirectRule : Type 0 where
  pub from : Text
  pub to : Text
  pub status : ℕ
  pub match_type : RedirectMatch
  pub behavior : RedirectBehavior

pub record UpstreamConfig : Type 0 where
  pub address : Text
  pub tls : Bool
  pub sni : Text
  pub host : Option Text
  pub ca_path : Option Text
  pub base_path : Text
  pub http_version : HttpVersion

pub record InternalRouteConfig : Type 0 where
  pub prefix : Text
  pub upstream : UpstreamConfig
  pub strip_prefix : Bool

pub data ProxyTarget : Type 0 where
  direct : UpstreamConfig → ProxyTarget
  load_balanced : List UpstreamConfig → Bool → ℕ → ProxyTarget

pub data AccessPolicy : Type 0 where
  all_paths : AccessPolicy
  only_prefixes : List Text → AccessPolicy

pub record CacheConfig : Type 0 where
  pub enabled : Bool
  pub max_file_bytes : ℕ

pub data ForwardingConfig : Type 0 where
  direct cloudflare trusted_proxy : ForwardingConfig

pub record SiteConfig : Type 0 where
  pub enabled : Bool
  pub domains : List Text
  pub listen : ListenMode
  pub traffic : TrafficMode
  pub target : ProxyTarget
  pub internal_routes : List InternalRouteConfig
  pub redirects : List RedirectRule
  pub redirect_https : Bool
  pub access : AccessPolicy
  pub cache : CacheConfig
  pub forwarding : ForwardingConfig
  pub logging : Option LogLevel
  pub http : HttpVersion
  pub source_file : Text

-- `primary_domain` of a list of domains: SiteConfig and SiteRuntime have the same one.
unfoldable pub primary_domain : List Text → Text
primary_domain [] = codes "<no-domain>"
primary_domain (d ∷ ds) = d

unfoldable pub resolved_logging : SiteConfig → LogLevel → LogLevel
unfolding is_enabled
resolved_logging site default =
    unwrap_or site.logging (if is_enabled default then default else info)

-- UpstreamConfig::apply_http_default
apply_http_default : HttpVersion → HttpVersion → HttpVersion
apply_http_default default auto = default
apply_http_default default v = v

unfoldable pub with_http_default : HttpVersion → UpstreamConfig → UpstreamConfig
unfolding apply_http_default
with_http_default default u = record u { http_version = apply_http_default default u.http_version }

unfoldable pub target_with_default : HttpVersion → ProxyTarget → ProxyTarget
unfolding with_http_default
target_with_default default (direct u) = direct (with_http_default default u)
target_with_default default (load_balanced us check interval) =
    load_balanced (map (with_http_default default) us) check interval

route_with_default : HttpVersion → InternalRouteConfig → InternalRouteConfig
unfolding with_http_default
route_with_default default r = record r { upstream = with_http_default default r.upstream }

unfoldable pub resolve_http_versions : SiteConfig → SiteConfig
unfolding target_with_default route_with_default
resolve_http_versions site = record site {
  target = target_with_default site.http site.target;
  internal_routes = map (route_with_default site.http) site.internal_routes;
}
