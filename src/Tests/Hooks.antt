-- ===== src/Tests/Hooks.antt =====
-- The theorems on the choice of a peer, the cache, the log and the issuance of certificates at
-- concrete inputs.
use konnector.Upstreams.Selection.{resolve_upstream_selection}
use konnector.Paths.Routes.{find_route}
use konnector.Domains.Hosts.{host_matches, is_wildcard}
use konnector.Configs.Traffic
use konnector.Configs.Listen
use konnector.Prelude.{
  ℕ, ◌≡◌, refl, Bool, true, false, Option, none, some, List, [], ◌∷◌, Text, codes, get_elem?,
  Result, ok, trim_end_matches, to_ascii_lowercase, str_eq, rsplit_once, trim, starts_with, ◌>>=◌,
}
use konnector.Configs.Types.{LogLevel, to_alpn}
use konnector.Session.{Session, is_upgrade_request}
use konnector.Http.{ProxyError}
use konnector.Domains.Sites.{site_for, request_host, site_matches}
use konnector.Proxy.Runtime.{SiteRuntime, RequestContext, fresh_context}
use konnector.Proxy.Routing.{ProxyRouting}
use konnector.Proxy.Handler.Upstream.{IsPeered, upstream_peer, upstream_peer-IsPeered}
use konnector.Upstreams.Peer.{HttpPeer, configure_peer}
use konnector.Configs.Types.Alpn.{h1}
use konnector.CachePolicy.{IsCacheable, request_cache_filter, request_cache_filter-IsCacheable}
use konnector.Acme.Backoff.{Issuer}
use konnector.Tests.Data.{site_named, request_to}

abbrev cached_site : SiteRuntime
cached_site = record (site_named (codes "example.com")) {
  cache = record { enabled = true; max_file_bytes = 1024 };
}

abbrev routing : ProxyRouting
routing = record { sites = cached_site ∷ []; root_site = none; default_logging = LogLevel.info }

abbrev to_index : Session
to_index = request_to (codes "example.com") (codes "/")

abbrev load_path : Text → Result ProxyError Text
load_path path = ok path

-- A cell keeps the first value that it is given.
abbrev once : Option Text → Result ProxyError Text → Result ProxyError (Text × Option Text)
once (some ca) fresh = ok (ca, some ca)
once none fresh = fresh >>= λ ca. ok (ca, some ca)

abbrev none_healthy : Text → Option Text
none_healthy key = none

abbrev plain_peer : HttpPeer Text
plain_peer = record {
  address = codes "127.0.0.1:3000";
  tls = false;
  sni = [];
  alpn = h1;
  idle_timeout = some 60;
  ca = none;
}

abbrev peered : RequestContext
peered = record fresh_context { site = some 0; upstream = some 0; proxied = true }

upstream_peer-IsPeered_example :
    IsPeered load_path once none_healthy routing to_index fresh_context peered plain_peer
unfolding upstream_peer site_for request_host str_eq site_matches Listen.accepts Traffic.accepts
    is_upgrade_request is_wildcard starts_with trim_end_matches trim rsplit_once host_matches
    to_ascii_lowercase resolve_upstream_selection find_route configure_peer to_alpn
upstream_peer-IsPeered_example =
    upstream_peer-IsPeered load_path once none_healthy none none routing to_index fresh_context
      peered plain_peer refl refl

abbrev no_credentials : Text → Bool
no_credentials name = false

request_cache_filter-IsCacheable_example :
    (i : ℕ) × (site : SiteRuntime) × (site_for to_index routing.sites ≡ some i)
    × (get_elem? routing.sites i ≡ some site)
    × (some 0 ≡ some i)
    × (is_upgrade_request to_index ≡ false)
    × IsCacheable no_credentials to_index site
    × (1024 ≡ site.cache.max_file_bytes)
unfolding request_cache_filter is_upgrade_request str_eq site_for request_host site_matches
    Listen.accepts Traffic.accepts is_wildcard starts_with trim_end_matches trim rsplit_once
    host_matches to_ascii_lowercase find_route
request_cache_filter-IsCacheable_example =
    request_cache_filter-IsCacheable no_credentials to_index fresh_context
      (record fresh_context { site = some 0 }) routing.sites 1024 refl

abbrev limited : Text
limited = codes "too many failed authorizations"

abbrev one_domain : List Text
one_domain = codes "example.com" ∷ []

abbrev issuer : Issuer
issuer = record { runtime = ok tt; has_dir = true; write = λ text file. some text }
