-- ===== src/Proxy/Handler.antt =====
-- src/proxy/handler.rs: the hooks of `DomainProxy` that decide what becomes of a request, with
-- src/health_check.rs, src/default_site.rs, `reject_disallowed` of src/access_control.rs and
-- `proxy_if_needed` of src/http3.rs. A hook gives back the session and the context as it leaves
-- them, also where it fails.
pub mod Filter
pub mod Rewritten
pub mod Upstream
pub mod Hooks
pub mod Access
use konnector.Prelude.{
  ℕ, ◌≡◌, Bool, true, false, not, ◌||◌, ◌&&◌, Option, none, some, List, [], ◌∷◌, Text, codes,
  str_eq, if◌then◌else◌, get_elem?, or_else, Result, ok, err, ◌>>=◌, print_uint, length, ok_or,
}
use konnector.Prelude.Utf8.{to_utf8}
use konnector.Configs.Types.{UpstreamConfig, HttpVersion, http3}
use konnector.Session.{Session, is_upgrade_request}
use konnector.Http.{HttpLib, Request, Response, ProxyError, explain, internal_error}
use konnector.ErrorPages
use konnector.Domains.Sites.{site_for}
use konnector.Paths.Access.{is_allowed}
use konnector.Acme.Challenges.{Challenges}
use konnector.Acme.Challenges
use konnector.Redirects
use konnector.Forwarding
use konnector.Upstreams.Selection.{Balancer, resolve_upstream_selection, index_or_panic}
use konnector.Upstreams.Transform.{apply_request_transform}
use konnector.PathRewrite.Location.{prepare}
use konnector.Proxy.Runtime.{SiteRuntime, RequestContext}
use konnector.Proxy.Routing.{ProxyRouting}

-- What a request filter decides: the request goes on to an upstream, is answered, or is proxied
-- over HTTP/3 by the filter itself.
pub data Handled : Type 0 where
  passed : Handled
  answered : Response → Handled
  relayed : UpstreamConfig → Handled

pub record Filtered : Type 0 where
  pub session : Session
  pub ctx : RequestContext
  pub outcome : Result ProxyError Handled

abbrev pub filtered : Session → RequestContext → Result ProxyError Handled → Filtered
filtered s ctx outcome = record { session = s; ctx = ctx; outcome = outcome }

text_page : Text → Text → Response
text_page content_type body = record {
  status = 200;
  headers =
      (codes "content-type", content_type)
      ∷ (codes "cache-control", codes "no-store")
      ∷ (codes "content-length", print_uint (length (to_utf8 body)))
      ∷ [];
  body = body;
}

abbrev pub healthy : Response
unfolding text_page
healthy = text_page (codes "text/plain; charset=utf-8") (codes "ok\n")

-- `health_check::respond`
unfoldable pub check_health : Session → Option Response
check_health s =
    if not (str_eq s.path (codes "/_health")) || not s.client_is_loopback
    then none
    else some healthy

-- `default_site::respond`, whose page is a constant text.
abbrev pub default_page : Text → Response
unfolding text_page
default_page text = text_page (codes "text/html; charset=utf-8") text

-- `access_control::reject_disallowed` on a session whose site has been found again.
unfoldable pub allow :
    Session → RequestContext → List SiteRuntime → ℕ → RequestContext × Result ProxyError Bool
allow s ctx sites index = (
  record ctx { site = some index },
  index_or_panic sites index >>= λ site. ok (not (is_allowed s.path site.access)),
)

unfoldable pub reject_disallowed :
    Session → RequestContext → List SiteRuntime → RequestContext × Result ProxyError Bool
unfolding allow
reject_disallowed s ctx sites = elim (site_for s sites) [
  | none ↦ (ctx, ok false)
  | some index ↦ allow s ctx sites index
]

-- RequestContext::mark_proxied
unfoldable pub mark_proxied : RequestContext → RequestContext
mark_proxied ctx = record ctx { proxied = true }

-- RequestContext::mark_started, at the time `now`
unfoldable pub mark_started : ℕ → RequestContext → RequestContext
mark_started now ctx = record ctx { started_at = some now }

abbrev downstream_keepalive_secs : ℕ
downstream_keepalive_secs = 75

-- `early_request_filter`: the keepalive of the connection, and the context.
unfoldable pub early_request_filter : ℕ → Session → RequestContext → Option ℕ × RequestContext
unfolding mark_started
early_request_filter now s ctx =
    if is_upgrade_request s
    then (none, record (mark_started now ctx) { websocket = true })
    else (some downstream_keepalive_secs, mark_started now ctx)
