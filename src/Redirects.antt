-- ===== src/Redirects.antt =====
-- src/redirects.rs: the redirect to HTTPS and the redirect rules of a site. A response is handed
-- back to be sent; the failure of a write to the client, an error of pingora, is not modelled.
pub mod Laws
use konnector.Prelude.{
  ℕ, Bool, true, false, not, ◌||◌, Option, none, some, List, [], ◌∷◌, ◌++◌, Text, codes, str_eq,
  is_empty, starts_with, contains_char, rsplit_once, drop, length, find, if◌then◌else◌, Result, ok,
  err, ◌>>=◌,
}
use konnector.Session.{Session}
use konnector.Http.{HttpLib, Response, ProxyError, internal_error, explain, with_query}
use konnector.Configs.Types.{
  RedirectRule, RedirectMatch, exact, prefix, RedirectBehavior, redirect, rewrite,
}
use konnector.Forwarding.{public_scheme, public_host, public_origin}
use konnector.Proxy.Runtime.{SiteRuntime}

matches_by : RedirectMatch → Text → Text → Bool
matches_by exact path from = str_eq path from
matches_by prefix path from = starts_with path from

unfoldable pub matches : RedirectRule → Text → Bool
unfolding matches_by
matches rule path = matches_by rule.match_type path rule.from

destination_by : RedirectMatch → RedirectRule → Text → Text
destination_by exact rule path = rule.to
destination_by prefix rule path = rule.to ++ drop (length rule.from) path

unfoldable pub destination : RedirectRule → Text → Text
unfolding destination_by
destination rule path = destination_by rule.match_type rule path

-- The query of the request, behind a target that has none of its own.
unfoldable pub keep_query : Text → Option Text → Text
keep_query target query = if contains_char target b'?' then target else with_query target query

unfoldable pub redirection : ℕ → Text → Response
redirection status location = record {
  status = status;
  headers =
      (codes "location", location)
      ∷ (codes "cache-control", codes "no-store")
      ∷ (codes "content-length", codes "0")
      ∷ [];
  body = [];
}

unfoldable pub https_host : Session → SiteRuntime → Text
https_host s site = elim (rsplit_once (public_host s site) b':') [
  | none ↦ public_host s site
  | some (name, port) ↦
      if str_eq port (codes "80") || str_eq port (codes "443") then name else public_host s site
]

unfoldable pub https_location : Session → SiteRuntime → Text
unfolding https_host
https_location s site =
    with_query
      (codes "https://" ++ https_host s site ++ (if is_empty s.path then codes "/" else s.path))
      s.query

-- `redirect_http_to_https`: the response, if the request is redirected.
unfoldable pub redirect_http_to_https : Session → SiteRuntime → Option Response
redirect_http_to_https s site =
    if not site.redirect_https
    then none
    else if not (str_eq (public_scheme s site) (codes "http"))
    then none
    else some (redirection 308 (https_location s site))

unfoldable pub redirect_location : Session → SiteRuntime → RedirectRule → Text
unfolding keep_query
redirect_location s site rule =
    let location = keep_query (destination rule s.path) s.query in
    if starts_with location (codes "/") then public_origin s site ++ location else location

-- The session as the rewrite leaves it, with its new URI.
module _ (lib : HttpLib) where
  open lib use {parse_uri}

  unfoldable pub rewrite_request : Session → RedirectRule → Result ProxyError Session
  unfolding keep_query
  rewrite_request s rule = elim (parse_uri (keep_query (destination rule s.path) s.query)) [
    | none ↦ err (explain internal_error (codes "cannot build rewritten uri"))
    | some uri ↦ ok (record s { path = uri.path; query = uri.query; authority = uri.authority })
  ]

  abbrev pub unanswered : Session → Result ProxyError (Session × Option Response)
  unanswered s = ok (s, none)

  unfoldable pub apply_rule :
      RedirectBehavior
      → Session
      → SiteRuntime
      → RedirectRule
      → Result ProxyError (Session × Option Response)
  apply_rule rewrite s site rule = rewrite_request s rule >>= unanswered
  apply_rule redirect s site rule =
      ok (s, some (redirection rule.status (redirect_location s site rule)))

  -- `apply`: the session, and the response if the request is answered.
  unfoldable pub apply : Session → SiteRuntime → Result ProxyError (Session × Option Response)
  apply s site = elim (redirect_http_to_https s site) [
    | some response ↦ ok (s, some response)
    | none ↦ elim (find (λ rule. matches rule s.path) site.redirects) [
      | none ↦ ok (s, none)
      | some rule ↦ apply_rule rule.behavior s site rule
    ]
  ]
