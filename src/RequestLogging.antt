-- ===== src/RequestLogging.antt =====
-- src/request_logging.rs: whether a request is logged, at which level, under which name, and the
-- line that is written. The summary of a request, its
-- duration and the text of an error are arguments.
use konnector.Prelude.{
  ℕ, ◌≡◌, ◌≢◌, ◌↔◌, Bool, true, false, not, ◌||◌, Option, none, some, List, [], ◌++◌, arith, Text,
  codes, is_empty, if◌then◌else◌, get_elem?, print_uint, option_map, unwrap_or, ◌==◌, Bool-cases,
  inl, inr,
}
use konnector.Configs.Types.{
  LogLevel, is_enabled, is_debug, log_label, primary_domain, UpstreamConfig,
}
use konnector.Proxy.Runtime.{SiteRuntime, RequestContext}
use konnector.Upstreams.Selection.{selected_upstream}

-- `root_site == Some(index)`
abbrev is_root : Option ℕ → ℕ → Bool
is_root none index = false
is_root (some root) index = root == index

unfoldable pub log_level_for : RequestContext → List SiteRuntime → LogLevel → Option ℕ → LogLevel
log_level_for ctx sites default root_site = elim ctx.site [
  | none ↦ default
  | some index ↦
      if is_root root_site index
      then default
      else unwrap_or (option_map (λ site. site.logging) (get_elem? sites index)) default
]

log_name : SiteRuntime → Text
unfolding primary_domain
log_name site = if is_empty site.source_file then primary_domain site.domains else site.source_file

unfoldable pub site_log_name : RequestContext → List SiteRuntime → Option ℕ → Text
unfolding log_name
site_log_name ctx sites root_site = elim ctx.site [
  | none ↦ codes "root"
  | some index ↦
      if is_root root_site index
      then codes "root"
      else unwrap_or (option_map log_name (get_elem? sites index)) (codes "unknown")
]

-- `selected_upstream` of this file, which looks the site up first.
unfoldable pub upstream_of : RequestContext → List SiteRuntime → Option UpstreamConfig
upstream_of ctx sites = elim ctx.site [
  | none ↦ none
  | some index ↦ elim (get_elem? sites index) [
    | none ↦ none
    | some site ↦ selected_upstream ctx site
  ]
]

unfoldable pub upstream_http_version : RequestContext → List SiteRuntime → Text
unfolding upstream_of
upstream_http_version ctx sites =
    unwrap_or (option_map (λ u. log_label u.http_version) (upstream_of ctx sites)) (codes "-")

unfoldable pub upstream_summary : RequestContext → List SiteRuntime → Text
unfolding upstream_of
upstream_summary ctx sites =
    unwrap_or (option_map (λ u. u.address) (upstream_of ctx sites)) (codes "-")

websocket_mark : Bool → Text
websocket_mark websocket = if websocket then codes " websocket=true" else []

error_mark : Option Text → Text
error_mark none = []
error_mark (some e) = codes " error=" ++ e

-- A line for the log of a name.
abbrev pub Logged : Type 0
Logged = Option (Text × Text)

module _ (sites : List SiteRuntime) (default : LogLevel) (root_site : Option ℕ) where
  -- `ctx.skip_access_log || !ctx.proxied`, or the level is off
  unfoldable pub is_silent : RequestContext → Bool
  unfolding log_level_for is_enabled
  is_silent ctx =
      ctx.skip_access_log
      || not ctx.proxied
      || not (is_enabled (log_level_for ctx sites default root_site))

  detail : RequestContext → ℕ → Text
  unfolding log_level_for is_debug upstream_summary
  detail ctx duration_ms =
      if is_debug (log_level_for ctx sites default root_site)
      then codes " ("
        ++ print_uint duration_ms
        ++ codes "ms) upstream="
        ++ upstream_summary ctx sites
      else []

  unfoldable pub log_request : RequestContext → Text → ℕ → ℕ → Option Text → Logged
  unfolding is_silent detail site_log_name upstream_http_version websocket_mark error_mark
  log_request ctx summary status duration_ms error =
      if is_silent ctx
      then none
      else some (
        site_log_name ctx sites root_site,
        summary
            ++ codes " -> "
            ++ print_uint status
            ++ detail ctx duration_ms
            ++ codes " http="
            ++ upstream_http_version ctx sites
            ++ websocket_mark ctx.websocket
            ++ error_mark error,
      )

  unfoldable pub log_proxy_started : RequestContext → Text → Logged
  unfolding is_silent site_log_name upstream_summary upstream_http_version websocket_mark
  log_proxy_started ctx summary =
      if is_silent ctx
      then none
      else some (
        site_log_name ctx sites root_site,
        summary
            ++ codes " proxy upstream="
            ++ upstream_summary ctx sites
            ++ codes " http="
            ++ upstream_http_version ctx sites
            ++ websocket_mark ctx.websocket,
      )

-- A request is logged exactly when it is proxied, is not exempt, and the level of its log is not
-- off; the line at its start and the line at its end come both or neither, under one name.
pub log_request_lem :
    (sites : List SiteRuntime) (default : LogLevel) (root_site : Option ℕ) (ctx : RequestContext)
    (summary : Text) (status duration_ms : ℕ) (error : Option Text)
    → ((log_request sites default root_site ctx summary status duration_ms error ≢ none) ↔ (
        (ctx.skip_access_log ≡ false)
        × (ctx.proxied ≡ true)
        × (is_enabled (log_level_for ctx sites default root_site) ≡ true)))
      × (option_map (λ line. line.0) (log_proxy_started sites default root_site ctx summary)
          ≡ option_map
              (λ line. line.0)
              (log_request sites default root_site ctx summary status duration_ms error))
unfolding log_request log_proxy_started
log_request_lem sites default root_site ctx summary status duration_ms error =
    elim (Bool-cases (is_silent sites default root_site ctx)) [
      | inl silent ↦ (ground arith, ground arith)
      | inr loud ↦ (ground arith, ground arith)
    ]
