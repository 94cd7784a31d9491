-- ===== src/Proxy/Handler/Filter.antt =====
-- src/proxy/handler.rs: `request_filter` and `upstream_peer`; and `proxy_if_needed` of
-- src/http3.rs. The exchange with the upstream over QUIC is a parameter: what it writes to the
-- client is its own, and it gives back the context and whether it failed. The header map of the
-- session is an argument, and so is the load balancer.
use konnector.Prelude.{
  ℕ, Bool, true, false, Option, none, some, List, Text, if◌then◌else◌, get_elem?, or_else, Result,
  ok, err, ◌>>=◌,
}
use konnector.Configs.Types.{UpstreamConfig, HttpVersion}
use konnector.Session.{Session}
use konnector.Http.{HttpLib, Request, Response, ProxyError}
use konnector.ErrorPages
use konnector.Domains.Sites.{site_for}
use konnector.Acme.Challenges.{Challenges}
use konnector.Acme.Challenges
use konnector.Redirects
use konnector.Forwarding
use konnector.Upstreams.Selection.{Balancer, resolve_upstream_selection, index_or_panic}
use konnector.Upstreams.Transform.{apply_request_transform}
use konnector.PathRewrite.Location.{prepare}
use konnector.Proxy.Runtime.{SiteRuntime, RequestContext}
use konnector.Proxy.Routing.{ProxyRouting}
use konnector.Proxy.Handler.{
  passed, answered, relayed, Filtered, filtered, check_health, default_page, reject_disallowed,
  mark_proxied,
}

abbrev pub is_http3 : HttpVersion → Bool
is_http3 HttpVersion.http3 = true
is_http3 _ = false

abbrev skip_log : RequestContext → RequestContext
skip_log ctx = record ctx { skip_access_log = true }

abbrev pub at_site : ℕ → RequestContext → RequestContext
at_site index ctx = record ctx { site = some index }

-- The exchange with an upstream over HTTP/3: the context after it, and whether it failed.
abbrev pub Exchange : HttpLib → Type 0
Exchange lib =
    Request lib.Headers
    → UpstreamConfig
    → RequestContext
    → RequestContext × Result ProxyError (Unit {0})

module _ (lib : HttpLib) (balancer : Balancer) (exchange : Exchange lib) (page : Text) where
  -- The end of `proxy_if_needed`: a failed exchange is answered with 502.
  unfoldable pub after_exchange :
      Session → UpstreamConfig → RequestContext × Result ProxyError (Unit {0}) → Filtered
  after_exchange s u (ctx, ok _) = filtered s ctx (ok (relayed u))
  after_exchange s u (ctx, err _) = filtered s ctx (ok (answered (ErrorPages.respond 502)))

  unfoldable pub send :
      Session
      → RequestContext
      → List SiteRuntime
      → UpstreamConfig
      → Result ProxyError (Request lib.Headers)
      → Filtered
  unfolding after_exchange
  send s ctx sites u (err e) = filtered s ctx (err e)
  send s ctx sites u (ok request) = after_exchange s u (exchange request u (prepare s ctx sites))

  unfoldable pub relay :
      Session → RequestContext → List SiteRuntime → lib.Headers → UpstreamConfig → Filtered
  unfolding send
  relay s ctx sites headers u =
      let request : Request lib.Headers = record {
        path = s.path;
        query = s.query;
        headers = headers;
      } in
      send s ctx sites u
        (Forwarding.apply lib s ctx sites request >>= λ r. apply_request_transform lib sites r ctx)

  unfoldable pub take_upstream :
      Session
      → RequestContext
      → List SiteRuntime
      → lib.Headers
      → Result ProxyError (UpstreamConfig × RequestContext)
      → Filtered
  unfolding relay mark_proxied
  take_upstream s ctx sites headers (err e) = filtered s ctx (err e)
  take_upstream s ctx sites headers (ok (u, ctx')) =
      if is_http3 u.http_version
      then relay s (mark_proxied ctx') sites headers u
      else filtered s ctx' (ok passed)

  unfoldable pub proxy_if_needed :
      Session → RequestContext → List SiteRuntime → lib.Headers → Filtered
  unfolding take_upstream
  proxy_if_needed s ctx sites headers = elim ctx.site [
    | none ↦ filtered s ctx (ok passed)
    | some index ↦ elim (get_elem? sites index) [
      | none ↦ filtered s ctx (ok passed)
      | some site ↦
          take_upstream s ctx sites headers (resolve_upstream_selection balancer site s.path ctx)
    ]
  ]

  -- The rest of `request_filter` after each of its steps, last step first.
  unfoldable pub after_access :
      Session → List SiteRuntime → lib.Headers → RequestContext × Result ProxyError Bool → Filtered
  after_access s sites headers (ctx, err e) = filtered s ctx (err e)
  after_access s sites headers (ctx, ok true) =
      filtered s ctx (ok (answered (ErrorPages.respond 404)))
  after_access s sites headers (ctx, ok false) =
      if ctx.websocket then filtered s ctx (ok passed) else proxy_if_needed s ctx sites headers

  unfoldable pub after_redirects :
      Session
      → RequestContext
      → List SiteRuntime
      → lib.Headers
      → Result ProxyError (Session × Option Response)
      → Filtered
  unfolding after_access
  after_redirects s ctx sites headers (err e) = filtered s ctx (err e)
  after_redirects s ctx sites headers (ok (s', some response)) =
      filtered s' ctx (ok (answered response))
  after_redirects s ctx sites headers (ok (s', none)) =
      after_access s' sites headers (reject_disallowed s' ctx sites)

  unfoldable pub route : ProxyRouting → Session → RequestContext → lib.Headers → Filtered
  unfolding after_redirects
  route routing s ctx headers = elim (or_else (site_for s routing.sites) routing.root_site) [
    | none ↦ filtered s ctx (ok (answered (default_page page)))
    | some index ↦ elim (index_or_panic routing.sites index) [
      | err e ↦ filtered s (at_site index ctx) (err e)
      | ok site ↦
          after_redirects s (at_site index ctx) routing.sites headers (Redirects.apply lib s site)
    ]
  ]

  unfoldable pub request_filter :
      Challenges → ProxyRouting → Session → RequestContext → lib.Headers → Filtered
  unfolding route
  request_filter store routing s ctx headers = elim (check_health s) [
    | some response ↦ filtered s (skip_log ctx) (ok (answered response))
    | none ↦ elim (Challenges.respond store s) [
      | some response ↦ filtered s (skip_log ctx) (ok (answered response))
      | none ↦ route routing s ctx headers
    ]
  ]
