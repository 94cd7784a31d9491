-- ===== src/Tests/Sites.antt =====
-- The theorems on configurations, domains, sites and the routing table at concrete inputs.
use konnector.Prelude.{
  ℕ, ◌≡◌, ◌≢◌, ◌↔◌, refl, Bool, true, false, none, some, List, [], ◌∷◌, Text, codes, starts_with,
  rsplit_once, to_ascii_lowercase, trim_end_matches, str_eq, trim, strip_prefix,
}
use konnector.Configs.Listen
use konnector.Configs.Listen.{
  ListenField, ListenMode, deserialize_listen, deserialize_listen-IsEnabled,
}
use konnector.Configs.Traffic
use konnector.Configs.Traffic.{
  TrafficField, TrafficMode, deserialize_traffic, deserialize_traffic-IsEnabled,
}
use konnector.Configs.Types.{SiteConfig, LogLevel}
use konnector.Session.{Session, session_is_https, is_upgrade_request}
use konnector.Domains.Hosts.{normalize_host, host_matches, is_wildcard}
use konnector.Domains.Matching.{Names, canonical, host_matches_iff}
use konnector.Domains.Sites.{request_host, site_matches, site_for}
use konnector.Domains.Selection.{IsChosen, site_for-IsChosen}
use konnector.Domains.Claims.{claim}
use konnector.Proxy.Runtime.{SiteRuntime}
use konnector.Proxy.Routing.{build_proxy_routing}
use konnector.Proxy.Routing.Exact.{exact_match_unique}
use konnector.Validation.Upstream.{proxy_target_upstreams, validate_upstreams}
use konnector.Validation.Site.{filter_valid_sites}
use konnector.Validation.Exclusive.{Exclusive, filter_valid_sites-Exclusive}
use konnector.Tests.Data.{site_config, site_named, request_to}

abbrev star : Text
star = codes "*.example.com"

host_matches_iff_example : (host_matches star (codes "www.example.com:443") ≡ true) ↔ (
    (normalize_host star ≢ [])
    × (normalize_host (codes "www.example.com:443") ≢ [])
    × Names (canonical star) (canonical (codes "www.example.com:443")))
host_matches_iff_example = host_matches_iff star (codes "www.example.com:443")

abbrev two_sites : List SiteRuntime
two_sites = site_named star ∷ site_named (codes "www.example.com") ∷ []

abbrev to_www : Session
to_www = request_to (codes "www.example.com") (codes "/")

site_for-IsChosen_example :
    (host : Text) × (request_host to_www ≡ some host)
    × IsChosen host (session_is_https to_www) (is_upgrade_request to_www) two_sites 1
unfolding site_for site_matches request_host str_eq Listen.accepts Traffic.accepts
    is_upgrade_request is_wildcard starts_with trim_end_matches trim rsplit_once host_matches
    to_ascii_lowercase
site_for-IsChosen_example = site_for-IsChosen to_www two_sites 1 refl

abbrev configured : List SiteConfig
configured =
    site_config (codes "a.org") ∷ site_config (codes "b.org") ∷ site_config (codes "a.org") ∷ []

abbrev no_file : Text → Bool
no_file path = false

exact_match_unique_example : ◌≡◌ {A = ℕ} 1 1
unfolding build_proxy_routing filter_valid_sites site_matches normalize_host strip_prefix
    trim_end_matches trim rsplit_once claim proxy_target_upstreams validate_upstreams str_eq
    to_ascii_lowercase Listen.accepts Traffic.accepts is_wildcard starts_with host_matches
exact_match_unique_example =
    exact_match_unique no_file configured none LogLevel.info (codes "b.org") false false 1 1 refl
      refl refl refl

filter_valid_sites-Exclusive_example : Exclusive (filter_valid_sites no_file configured)
filter_valid_sites-Exclusive_example = filter_valid_sites-Exclusive no_file configured
