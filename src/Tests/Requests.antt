-- ===== src/Tests/Requests.antt =====
-- The theorems on the way of a request at concrete inputs.
use konnector.Domains.Hosts.{host_matches, is_wildcard}
use konnector.Configs.Traffic
use konnector.Configs.Listen
use konnector.Domains.Sites.{request_host, site_for, site_matches}
use konnector.Paths.Routes.{find_route}
use konnector.Prelude.{
  ◌≡◌, ◌⊎◌, refl, true, Option, none, some, [], ◌∷◌, ◌++◌, Text, codes, ok, str_eq, starts_with,
  trim_end_matches, rsplit_once, ends_with, contains_char, trim, to_ascii_lowercase, strip_prefix,
  split_once,
}
use konnector.Configs.Types.{LogLevel, RedirectRule, RedirectMatch, RedirectBehavior, AccessPolicy}
use konnector.Session.{Session, is_upgrade_request}
use konnector.Forwarding
use konnector.Http.{Response, Request, ProxyError, explain, http_status}
use konnector.Forwarding.{apply_site, public_scheme, public_host, public_port}
use konnector.Forwarding.Headers.{IsForwarded, apply_site-IsForwarded}
use konnector.Paths.Prefix.{opens, slash, below, strip_internal_prefix, strip_internal_prefix-opens}
use konnector.Paths.Access.{is_allowed}
use konnector.Proxy.Runtime.{SiteRuntime, fresh_context, UpstreamRuntime}
use konnector.Upstreams.Selection.{
  resolve_upstream_selection, IsCoherent, resolve_upstream_selection-IsCoherent,
}
use konnector.Redirects
use konnector.Redirects.{matches, destination, redirection, https_location, redirect_location}
use konnector.Redirects.Laws.{IsToHttps, IsByRule, apply-answer}
use konnector.Acme.Challenges.{
  challenge_prefix, set_challenge, clear_challenge, challenge_response, answered_challenge,
  missing_challenge, challenge_response-set, challenge_response-clear, respond-challenge,
  challenge_token_from_path,
}
use konnector.Acme.Challenges
use konnector.Proxy.Routing.{ProxyRouting}
use konnector.Proxy.Handler.{Handled, filtered, check_health, reject_disallowed}
use konnector.Proxy.Handler.Filter.{Exchange, at_site, proxy_if_needed, request_filter}
use konnector.Proxy.Handler.Access.{
  on_its_way, request_filter-is_allowed, request_filter-skips_access,
}
use konnector.Tests.Data.{
  backend, api_route, site_named, request_to, request_by_uri, http_lib, drop_name, path_uri,
}

abbrev example_site : SiteRuntime
example_site = site_named (codes "example.com")

abbrev to_api : Session
to_api = request_to (codes "example.com") (codes "/api/users")

abbrev spoofed : Request http_lib.Headers
spoofed = record {
  path = codes "/";
  query = none;
  headers = (codes "cf-ray", codes "1") ∷ (codes "accept", codes "*/*") ∷ [];
}

abbrev forwarded : Request http_lib.Headers
forwarded = record {
  path = codes "/";
  query = none;
  headers =
      (codes "x-forwarded-proto", codes "http")
      ∷ (codes "x-forwarded-host", codes "example.com")
      ∷ (codes "accept", codes "*/*")
      ∷ [];
}

apply_site-IsForwarded_example :
    IsForwarded http_lib to_api example_site spoofed.headers forwarded.headers
unfolding apply_site public_port str_eq rsplit_once drop_name public_scheme public_host
apply_site-IsForwarded_example = apply_site-IsForwarded http_lib to_api example_site spoofed refl

strip_internal_prefix-opens_example :
    (rest : Text) × (strip_internal_prefix (codes "/api/users") (codes "/api" ++ slash)
      ≡ b'/' ∷ rest)
    × ((codes "/api/users" ≡ below (codes "/api") rest)
        ⊎ ((codes "/api/users" ≡ codes "/api") × (rest ≡ [])))
unfolding opens trim_end_matches str_eq ends_with starts_with
strip_internal_prefix-opens_example =
    strip_internal_prefix-opens (codes "/api") (codes "/api/users") refl refl

abbrev routed_site : SiteRuntime
routed_site = record example_site { internal_routes = api_route ∷ [] }

abbrev none_healthy : Text → Option Text
none_healthy key = none

resolve_upstream_selection-IsCoherent_example :
    IsCoherent routed_site fresh_context backend
      (record fresh_context { internal_route = some 0; upstream = some 0 })
unfolding resolve_upstream_selection find_route str_eq trim_end_matches ends_with starts_with
resolve_upstream_selection-IsCoherent_example =
    resolve_upstream_selection-IsCoherent none_healthy routed_site (codes "/api/users")
      fresh_context (λ e. refl) refl

abbrev balanced_site : SiteRuntime
balanced_site = record example_site { target = UpstreamRuntime.load_balanced (backend ∷ []) }

abbrev no_backend : ProxyError
no_backend = explain (http_status 503) (codes "no healthy upstream")

abbrev old_to_new : RedirectRule
old_to_new = record {
  from = codes "/old/";
  to = codes "/new/";
  status = 301;
  match_type = RedirectMatch.prefix;
  behavior = RedirectBehavior.redirect;
}

abbrev redirecting_site : SiteRuntime
redirecting_site = record example_site { redirects = old_to_new ∷ [] }

abbrev to_old : Session
to_old = request_to (codes "example.com") (codes "/old/page")

abbrev moved_permanently : Response
moved_permanently = redirection 301 (codes "http://example.com/new/page")

apply-answer_example :
    (to_old ≡ to_old)
    × (IsToHttps to_old redirecting_site moved_permanently
        ⊎ IsByRule to_old redirecting_site moved_permanently)
unfolding Redirects.apply Redirects.redirect_http_to_https matches starts_with Redirects.apply_rule
    redirect_location contains_char destination Forwarding.public_origin str_eq
apply-answer_example = apply-answer http_lib to_old to_old redirecting_site moved_permanently refl

abbrev to_challenge : Session
to_challenge = request_to (codes "example.com") (challenge_prefix ++ codes "t")

respond-challenge_example :
    (Challenges.respond (set_challenge (codes "t") (codes "t.key") []) to_challenge
      ≡ some (answered_challenge (codes "t.key")))
    × (Challenges.respond
          (clear_challenge (codes "t") (set_challenge (codes "t") (codes "t.key") []))
          to_challenge
        ≡ some missing_challenge)
unfolding contains_char
respond-challenge_example = respond-challenge to_challenge (codes "t") (codes "t.key") [] refl refl

-- Every exchange over HTTP/3 succeeds.
abbrev served : Exchange http_lib
served request u ctx = (ctx, ok tt)

abbrev rewritten : RedirectRule
rewritten = record old_to_new { behavior = RedirectBehavior.rewrite }

abbrev closed_site : SiteRuntime
closed_site = record example_site {
  redirects = rewritten ∷ [];
  access = AccessPolicy.only_prefixes (codes "/new/" ∷ []);
}

abbrev routing : ProxyRouting
routing = record { sites = closed_site ∷ []; root_site = none; default_logging = LogLevel.info }

request_filter-is_allowed_example :
    is_allowed
      (request_filter http_lib none_healthy served [] [] routing to_old fresh_context
        []).session.path
      closed_site.access
    ≡ true
unfolding request_filter str_eq site_for request_host site_matches Listen.accepts Traffic.accepts
    is_upgrade_request is_wildcard starts_with trim_end_matches trim rsplit_once host_matches
    to_ascii_lowercase check_health Challenges.respond challenge_token_from_path Redirects.apply
    Redirects.redirect_http_to_https matches Redirects.apply_rule Redirects.rewrite_request
    contains_char destination reject_disallowed is_allowed path_uri split_once ends_with
    proxy_if_needed resolve_upstream_selection find_route
request_filter-is_allowed_example =
    request_filter-is_allowed http_lib none_healthy served [] [] routing to_old fresh_context [] 0
      closed_site (codes "example.com") Handled.passed refl refl refl refl on_its_way

-- Nothing is allowed.
abbrev shut_site : SiteRuntime
shut_site = record closed_site { access = AccessPolicy.only_prefixes [] }

abbrev to_old_by_uri : Session
to_old_by_uri = request_by_uri (codes "example.com") (codes "/old/page")

abbrev to_new : Session
to_new = record to_old_by_uri { path = codes "/new/page"; authority = none }

request_filter-skips_access_example :
    request_filter http_lib none_healthy served [] []
      (record routing { sites = shut_site ∷ [] })
      to_old_by_uri
      (record fresh_context { websocket = true })
      []
    ≡ filtered to_new (at_site 0 (record fresh_context { websocket = true })) (ok Handled.passed)
unfolding check_health str_eq Challenges.respond Challenges.challenge_token_from_path strip_prefix
    site_for request_host site_matches Listen.accepts Traffic.accepts is_upgrade_request is_wildcard
    starts_with trim_end_matches trim rsplit_once host_matches to_ascii_lowercase Redirects.apply
    Redirects.redirect_http_to_https matches Redirects.apply_rule Redirects.rewrite_request
    contains_char destination path_uri split_once
request_filter-skips_access_example =
    request_filter-skips_access http_lib none_healthy served [] []
      (record routing { sites = shut_site ∷ [] }) to_old_by_uri to_new
      (record fresh_context { websocket = true }) [] 0 shut_site refl refl refl refl refl refl refl
