-- ===== src/Proxy/Handler/Access.antt =====
-- The allowlist of a site on the way of a request through `request_filter`.
use konnector.Prelude.{
  ℕ, ◌≡◌, ◌≢◌, refl, ap, ◌∙◌, Bool, true, false, not, Option, none, some, List, arith, Text, codes,
  if◌then◌else◌, get_elem?, Result, ok, err, Option-cases, inl, inr,
}
use konnector.Configs.Types.{UpstreamConfig}
use konnector.Session.{Session}
use konnector.Http.{HttpLib, Request, Response, ProxyError}
use konnector.Domains.Sites.{site_for}
use konnector.Paths.Access.{is_allowed}
use konnector.Acme.Challenges.{Challenges}
use konnector.Acme.Challenges
use konnector.Redirects
use konnector.Redirects.{destination, matches, redirect_http_to_https, rewrite_request, apply_rule}
use konnector.Upstreams.Selection.{Balancer, resolve_upstream_selection}
use konnector.PathRewrite.Location.{prepare}
use konnector.Proxy.Runtime.{SiteRuntime, RequestContext}
use konnector.Proxy.Routing.{ProxyRouting}
use konnector.Proxy.Handler.{
  Handled, passed, answered, relayed, filtered, check_health, reject_disallowed, mark_proxied,
  allow,
}
use konnector.Proxy.Handler.Filter.{
  Exchange, at_site, proxy_if_needed, after_redirects, after_access, send, relay, take_upstream,
  after_exchange, route, request_filter,
}
use konnector.Proxy.Handler.Rewritten.{apply-site_for, no_host-site_for, apply-header}

-- The request goes to an upstream.
pub data IsForwarded : Handled → Type 0 where
  on_its_way : IsForwarded passed
  by_filter : (u : UpstreamConfig) → IsForwarded (relayed u)

not-IsForwarded : {handled : Handled} (r : Response) → IsForwarded handled → handled ≢ answered r
not-IsForwarded r on_its_way e = cc
not-IsForwarded r (by_filter u) e = cc

module _ (lib : HttpLib) (balancer : Balancer) (exchange : Exchange lib) (page : Text) where
  -- The filter for HTTP/3 leaves the session.
  after_exchange-session :
      (s : Session) (u : UpstreamConfig) (r : RequestContext × Result ProxyError (Unit {0}))
      → (after_exchange lib balancer exchange page s u r).session ≡ s
  unfolding after_exchange
  after_exchange-session s u (ctx, ok _) = refl
  after_exchange-session s u (ctx, err _) = refl

  send-session :
      (s : Session) (ctx : RequestContext) (sites : List SiteRuntime) (u : UpstreamConfig)
      (r : Result ProxyError (Request lib.Headers))
      → (send lib balancer exchange page s ctx sites u r).session ≡ s
  unfolding send
  send-session s ctx sites u (err e) = refl
  send-session s ctx sites u (ok request) =
      after_exchange-session s u (exchange request u (prepare s ctx sites))

  relay-session :
      (s : Session) (ctx : RequestContext) (sites : List SiteRuntime) (headers : lib.Headers)
      (u : UpstreamConfig)
      → (relay lib balancer exchange page s ctx sites headers u).session ≡ s
  unfolding relay
  relay-session s ctx sites headers u = send-session s ctx sites u _

  take_upstream-session :
      (s : Session) (ctx : RequestContext) (sites : List SiteRuntime) (headers : lib.Headers)
      (r : Result ProxyError (UpstreamConfig × RequestContext))
      → (take_upstream lib balancer exchange page s ctx sites headers r).session ≡ s
  unfolding take_upstream
  take_upstream-session s ctx sites headers (err e) = refl
  take_upstream-session s ctx sites headers (ok (u, ctx')) =
      ground (arith, relay-session s (mark_proxied ctx') sites headers u)

  proxy_if_needed-session :
      (s : Session) (ctx : RequestContext) (sites : List SiteRuntime) (headers : lib.Headers)
      → (proxy_if_needed lib balancer exchange page s ctx sites headers).session ≡ s
  unfolding proxy_if_needed
  proxy_if_needed-session s ctx sites headers = elim (Option-cases ctx.site) [
    | inl none_yet ↦ ground arith
    | inr (index, e) ↦ elim (Option-cases (get_elem? sites index)) [
      | inl missed ↦ ground arith
      | inr (site, at) ↦ ground (
        arith,
        take_upstream-session s ctx sites headers
            (resolve_upstream_selection balancer site s.path ctx),
      )
    ]
  ]

  after_access-session :
      (s : Session) (sites : List SiteRuntime) (headers : lib.Headers)
      (r : RequestContext × Result ProxyError Bool)
      → (after_access lib balancer exchange page s sites headers r).session ≡ s
  unfolding after_access
  after_access-session s sites headers (ctx, err e) = refl
  after_access-session s sites headers (ctx, ok true) = refl
  after_access-session s sites headers (ctx, ok false) =
      ground (arith, proxy_if_needed-session s ctx sites headers)

  after_access-verdict :
      (s : Session) (sites : List SiteRuntime) (headers : lib.Headers) (handled : Handled)
      (r : RequestContext × Result ProxyError Bool)
      → (after_access lib balancer exchange page s sites headers r).outcome ≡ ok handled
      → IsForwarded handled
      → r.1 ≡ ok false
  unfolding after_access
  after_access-verdict s sites headers handled (ctx, err e) h forwarded = cc
  after_access-verdict s sites headers handled (ctx, ok true) h on_its_way = cc
  after_access-verdict s sites headers handled (ctx, ok true) h (by_filter u) = cc
  after_access-verdict s sites headers handled (ctx, ok false) h forwarded = refl

  reject_disallowed-verdict :
      (s : Session) (ctx : RequestContext) (sites : List SiteRuntime) (index : ℕ)
      (site : SiteRuntime)
      → site_for s sites ≡ some index
      → get_elem? sites index ≡ some site
      → (reject_disallowed s ctx sites).1 ≡ ok (not (is_allowed s.path site.access))
  unfolding reject_disallowed allow
  reject_disallowed-verdict s ctx sites index site found at = ground arith

  after_redirects-allowed :
      (s : Session) (ctx : RequestContext) (sites : List SiteRuntime) (headers : lib.Headers)
      (index : ℕ) (site : SiteRuntime) (host : Text) (handled : Handled)
      (r : Result ProxyError (Session × Option Response))
      → Redirects.apply lib s site ≡ r
      → s.header (codes "host") ≡ some host
      → site_for s sites ≡ some index
      → get_elem? sites index ≡ some site
      → (after_redirects lib balancer exchange page s ctx sites headers r).outcome ≡ ok handled
      → IsForwarded handled
      → is_allowed
          (after_redirects lib balancer exchange page s ctx sites headers r).session.path
          site.access
        ≡ true
  unfolding after_redirects
  after_redirects-allowed s ctx sites headers index site host handled (err e) ran named found at h
        on =
      cc
  after_redirects-allowed s ctx sites headers index site host handled (ok (s', some response)) ran
        named found at h on_its_way =
      cc
  after_redirects-allowed s ctx sites headers index site host handled (ok (s', some response)) ran
        named found at h (by_filter u) =
      cc
  after_redirects-allowed s ctx sites headers index site host handled (ok (s', none)) ran named
        found at h on =
      let verdict =
        after_access-verdict s' sites headers handled (reject_disallowed s' ctx sites) h on in
      let same = after_access-session s' sites headers (reject_disallowed s' ctx sites) in
      let still = apply-site_for lib s s' site host sites named ran in
      let decided = reject_disallowed-verdict s' ctx sites index site (still ∙ found) at in
      ground (arith, verdict, same, decided)

  route-allowed :
      (routing : ProxyRouting) (s : Session) (ctx : RequestContext) (headers : lib.Headers)
      (index : ℕ) (site : SiteRuntime) (host : Text) (handled : Handled)
      → s.header (codes "host") ≡ some host
      → site_for s routing.sites ≡ some index
      → get_elem? routing.sites index ≡ some site
      → (route lib balancer exchange page routing s ctx headers).outcome ≡ ok handled
      → IsForwarded handled
      → is_allowed (route lib balancer exchange page routing s ctx headers).session.path site.access
        ≡ true
  unfolding route
  route-allowed routing s ctx headers index site host handled named found at h on =
      let rest =
        after_redirects-allowed s (at_site index ctx) routing.sites headers index site host handled
          (Redirects.apply lib s site) refl named found at in
      ground (arith, rest)

  -- A request that names its host in a header and for which there is a site goes to an upstream
  -- only if the site's access policy allows the path of the session as the filter leaves it: after
  -- the rewrite of a redirect rule, and before the prefix of a route is taken off it or the base
  -- path of the upstream is put in front.
  pub request_filter-is_allowed :
      (store : Challenges) (routing : ProxyRouting) (s : Session) (ctx : RequestContext)
      (headers : lib.Headers) (index : ℕ) (site : SiteRuntime) (host : Text) (handled : Handled)
      → s.header (codes "host") ≡ some host
      → site_for s routing.sites ≡ some index
      → get_elem? routing.sites index ≡ some site
      → (request_filter lib balancer exchange page store routing s ctx headers).outcome ≡ ok handled
      → IsForwarded handled
      → is_allowed
          (request_filter lib balancer exchange page store routing s ctx headers).session.path
          site.access
        ≡ true
  unfolding request_filter
  request_filter-is_allowed store routing s ctx headers index site host handled named found at h
        on =
      elim (Option-cases (check_health s)) [
        | inr (r, e) ↦ absurd (not-IsForwarded r on (ground arith))
        | inl e ↦ elim (Option-cases (Challenges.respond store s)) [
          | inr (r, e') ↦ absurd (not-IsForwarded r on (ground arith))
          | inl e' ↦
              let rest =
                route-allowed routing s ctx headers index site host handled named found at in
              ground (arith, rest)
        ]
      ]

  -- A request whose host is only in its URI, as over HTTP/2, and which the redirects of its site
  -- leave with a URI that is only a path, goes on whatever the access policy of the site is: a
  -- websocket to its upstream, any other to the filter for HTTP/3.
  pub request_filter-skips_access :
      (store : Challenges) (routing : ProxyRouting) (s s' : Session) (ctx : RequestContext)
      (headers : lib.Headers) (index : ℕ) (site : SiteRuntime)
      → check_health s ≡ none
      → Challenges.respond store s ≡ none
      → s.header (codes "host") ≡ none
      → site_for s routing.sites ≡ some index
      → get_elem? routing.sites index ≡ some site
      → Redirects.apply lib s site ≡ ok (s', none)
      → s'.authority ≡ none
      → request_filter lib balancer exchange page store routing s ctx headers ≡ (
          if ctx.websocket
          then filtered s' (at_site index ctx) (ok passed)
          else proxy_if_needed lib balancer exchange page s'
              (at_site index ctx)
              routing.sites
              headers)
  unfolding request_filter route after_redirects after_access reject_disallowed
  request_filter-skips_access store routing s s' ctx headers index site unhealthy other named found
        at moved_to lost =
      let lost_site =
        no_host-site_for s' routing.sites
          (ap (λ h. h (codes "host")) (apply-header lib s s' site moved_to) ∙ named) lost in
      ground arith
