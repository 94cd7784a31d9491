-- ===== src/Domains/Sites.antt =====
-- src/domain_routing.rs: the site of a request.
use konnector.Prelude.{
  ℕ, Bool, true, false, ◌||◌, ◌&&◌, not, Option, none, some, List, Text, codes, any, position,
  or_else, if◌then◌else◌, option_map,
}
use konnector.Session.{Session, session_is_https, is_upgrade_request}
use konnector.Configs.Listen
use konnector.Configs.Traffic
use konnector.Proxy.Runtime.{SiteRuntime}
use konnector.Domains.Hosts.{normalize_host, host_matches, is_wildcard}

-- `request_host`: the Host header if there is one, else the authority of the URI.
unfoldable pub request_host : Session → Option Text
request_host s =
    or_else (option_map normalize_host (s.header (codes "host")))
      (option_map normalize_host s.authority)

unfoldable pub domain_matches : Text → Bool → Text → Bool
domain_matches host exact_only domain =
    if exact_only && is_wildcard domain then false else host_matches domain host

unfoldable pub site_matches : SiteRuntime → Text → Bool → Bool → Bool → Bool
unfolding domain_matches
site_matches site host want_https want_websocket exact_only =
    if not (Listen.accepts site.listen want_https)
      || not (Traffic.accepts site.traffic want_websocket)
    then false
    else any (domain_matches host exact_only) site.domains

-- The two passes of `site_for` once the host is known.
unfoldable pub choose_site : Text → Bool → Bool → List SiteRuntime → Option ℕ
choose_site host https websocket sites =
    or_else (position (λ site. site_matches site host https websocket true) sites)
      (position (λ site. site_matches site host https websocket false) sites)

unfoldable pub site_for : Session → List SiteRuntime → Option ℕ
unfolding choose_site
site_for s sites = elim (request_host s) [
  | none ↦ none
  | some host ↦ choose_site host (session_is_https s) (is_upgrade_request s) sites
]
