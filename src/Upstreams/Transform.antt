-- ===== src/Upstreams/Transform.antt =====
-- src/upstreams.rs: `apply_request_transform`, with `upstream_host_header` and
-- `sanitize_upstream_request` of src/path_rewrite.rs.
use konnector.Prelude.{
  ℕ, not, Option, none, some, List, ◌++◌, Text, codes, is_empty, starts_with, if◌then◌else◌,
  option_filter, unwrap_or, Result, ok, err, ◌>>=◌,
}
use konnector.Configs.Types.{UpstreamConfig, InternalRouteConfig}
use konnector.Http.{HttpLib, Request, ProxyError, internal_error, explain, with_query}
use konnector.Forwarding.{insert_header}
use konnector.Paths.Prefix.{strip_internal_prefix}
use konnector.Proxy.Runtime.{SiteRuntime, RequestContext, upstream_at}
use konnector.Upstreams.Selection.{index_or_panic}

unfoldable pub upstream_host_header : UpstreamConfig → Text
upstream_host_header u = unwrap_or (option_filter (λ host. not (is_empty host)) u.host) u.address

module _ (lib : HttpLib) where
  open lib use {Headers, remove, parse_uri}

  -- `uri.parse()` and `set_uri`
  set_uri : Request Headers → Text → Result ProxyError (Request Headers)
  set_uri request uri = elim (parse_uri uri) [
    | none ↦ err (explain internal_error (codes "cannot build upstream uri"))
    | some parsed ↦ ok (record request { path = parsed.path; query = parsed.query })
  ]

  unfoldable pub set_request_path : Request Headers → Text → Result ProxyError (Request Headers)
  unfolding set_uri
  set_request_path request path = set_uri request (with_query path request.query)

  unfoldable pub apply_base_path : Request Headers → Text → Result ProxyError (Request Headers)
  unfolding set_uri
  apply_base_path request base_path =
      if is_empty base_path
      then ok request
      else set_uri request (with_query (base_path ++ request.path) request.query)

  unfoldable pub sanitize_upstream_request : Request Headers → Request Headers
  sanitize_upstream_request request =
      if starts_with request.path (codes "/_next/")
      then record request { headers = remove request.headers (codes "origin") }
      else request

  strip_route : Request Headers → InternalRouteConfig → Result ProxyError (Request Headers)
  unfolding set_request_path
  strip_route request r =
      if r.strip_prefix
      then set_request_path request (strip_internal_prefix request.path r.prefix)
      else ok request

  address_to : UpstreamConfig → Request Headers → Result ProxyError (Request Headers)
  unfolding apply_base_path insert_header
  address_to u request = do
    h ← insert_header lib request.headers (codes "host") (upstream_host_header u)
    apply_base_path (record request { headers = h }) u.base_path

  -- With a route: its upstream, after the strip; without: the upstream of the target, if it exists.
  transform_route : SiteRuntime → ℕ → Request Headers → Result ProxyError (Request Headers)
  unfolding strip_route address_to
  transform_route site route request = do
    r ← index_or_panic site.internal_routes route
    stripped ← strip_route request r
    address_to r.upstream stripped

  transform_target : SiteRuntime → ℕ → Request Headers → Result ProxyError (Request Headers)
  unfolding address_to
  transform_target site upstream request = elim (upstream_at site.target upstream) [
    | none ↦ ok request
    | some u ↦ address_to u request
  ]

  transform_site :
      SiteRuntime → Option ℕ → ℕ → Request Headers → Result ProxyError (Request Headers)
  unfolding transform_route transform_target
  transform_site site none upstream request = transform_target site upstream request
  transform_site site (some route) upstream request = transform_route site route request

  unfoldable pub apply_request_transform :
      List SiteRuntime → Request Headers → RequestContext → Result ProxyError (Request Headers)
  unfolding transform_site sanitize_upstream_request
  apply_request_transform sites request ctx = elim ctx.site [
    | none ↦ ok request
    | some index ↦ elim ctx.upstream [
      | none ↦ ok request
      | some upstream ↦ index_or_panic sites index >>= λ site.
          transform_site site ctx.internal_route upstream request >>= λ sent.
          ok (sanitize_upstream_request sent)
    ]
  ]
