-- ===== src/CachePolicy.antt =====
-- src/cache_policy.rs: whether the response to a request may be cached, and under which key. What
-- is enabled on pingora's cache is a value here: the largest size of a file.
use konnector.Prelude.{
  ℕ, ◌≡◌, Bool, true, false, not, ◌||◌, ◌&&◌, Option, none, some, List, ◌++◌, arith, Text, codes,
  str_eq, if◌then◌else◌, get_elem?, unwrap_or, Result, ok, err, ◌>>=◌, Option-cases, inl, inr,
}
use konnector.Configs.Types.{primary_domain}
use konnector.Session.{Session, is_upgrade_request}
use konnector.Http.{ProxyError, explain, internal_error, with_query}
use konnector.Domains.Sites.{site_for}
use konnector.Paths.Routes.{find_route}
use konnector.Proxy.Runtime.{SiteRuntime, RequestContext}
use konnector.Upstreams.Selection.{index_or_panic}

abbrev is_some {ℓ} : {A : Type ℓ} → Option A → Bool
is_some none = false
is_some (some a) = true

-- The limit of the cache that is enabled for a request to a site, if one is. A name of the header
-- map is there whether or not its value is text.
unfoldable pub cache_for : (contains_key : Text → Bool) → Session → SiteRuntime → Option ℕ
cache_for contains_key s site =
    let public =
      not (contains_key (codes "authorization")) && not (contains_key (codes "cookie")) in
    let reads = str_eq s.method (codes "GET") || str_eq s.method (codes "HEAD") in
    if is_some (find_route s.path site.internal_routes)
    then none
    else if site.cache.enabled && public && reads
    then some site.cache.max_file_bytes
    else none

cache_site :
    (contains_key : Text → Bool)
    → Session
    → RequestContext
    → List SiteRuntime
    → ℕ
    → RequestContext × Result ProxyError (Option ℕ)
unfolding cache_for
cache_site contains_key s ctx sites index = (
  record ctx { site = some index },
  index_or_panic sites index >>= λ site. ok (cache_for contains_key s site),
)

-- `configure_request`, and the context that it leaves.
unfoldable pub configure_request :
    (contains_key : Text → Bool)
    → Session
    → RequestContext
    → List SiteRuntime
    → RequestContext × Result ProxyError (Option ℕ)
unfolding cache_site
configure_request contains_key s ctx sites = elim (site_for s sites) [
  | none ↦ (ctx, ok none)
  | some index ↦ cache_site contains_key s ctx sites index
]

-- `request_cache_filter` of src/proxy/handler.rs
unfoldable pub request_cache_filter :
    (contains_key : Text → Bool)
    → Session
    → RequestContext
    → List SiteRuntime
    → RequestContext × Result ProxyError (Option ℕ)
unfolding configure_request
request_cache_filter contains_key s ctx sites =
    if ctx.websocket || is_upgrade_request s
    then (ctx, ok none)
    else configure_request contains_key s ctx sites

-- CacheKey::new: the namespace and the primary key
abbrev pub CacheKey : Type 0
CacheKey = Text × Text

key_at : Session → SiteRuntime → CacheKey
unfolding primary_domain
key_at s site =
    let domain = primary_domain site.domains in
    (domain, unwrap_or (s.header (codes "host")) domain ++ with_query s.path s.query)

-- `cache_key`
unfoldable pub cache_key : Session → RequestContext → List SiteRuntime → Result ProxyError CacheKey
unfolding key_at
cache_key s ctx sites =
    let missing = explain internal_error (codes "cache site is missing") in
    elim ctx.site [
      | none ↦ err missing
      | some index ↦ elim (get_elem? sites index) [
        | none ↦ err missing
        | some site ↦ ok (key_at s site)
      ]
    ]

-- What a request and its site must be like for a cache to be enabled.
pub record IsCacheable (contains_key : Text → Bool) (s : Session) (site : SiteRuntime)
    : Type 0 where
  pub enabled : site.cache.enabled ≡ true
  pub anonymous : contains_key (codes "authorization") ≡ false
  pub no_cookie : contains_key (codes "cookie") ≡ false
  pub reading : (str_eq s.method (codes "GET") || str_eq s.method (codes "HEAD")) ≡ true
  pub no_route : find_route s.path site.internal_routes ≡ none

cache_for-IsCacheable :
    (contains_key : Text → Bool) (s : Session) (site : SiteRuntime) (limit : ℕ)
    → cache_for contains_key s site ≡ some limit
    → IsCacheable contains_key s site × (limit ≡ site.cache.max_file_bytes)
unfolding cache_for
cache_for-IsCacheable contains_key s site limit h =
    elim (Option-cases (find_route s.path site.internal_routes)) [
      | inr (i, e) ↦ absurd (ground arith)
      | inl e ↦ (
        record {
          enabled = ground arith;
          anonymous = ground arith;
          no_cookie = ground arith;
          reading = ground arith;
          no_route = e;
        },
        ground arith,
      )
    ]

-- A cache is enabled only for a GET or HEAD request, to a site that asks for it and outside its
-- internal routes, without credentials and without a cookie, never for a websocket; with the
-- limit of that site, which the context then names.
pub request_cache_filter-IsCacheable :
    (contains_key : Text → Bool) (s : Session) (ctx ctx' : RequestContext)
    (sites : List SiteRuntime) (limit : ℕ)
    → request_cache_filter contains_key s ctx sites ≡ (ctx', ok (some limit))
    → (i : ℕ) × (site : SiteRuntime) × (site_for s sites ≡ some i)
      × (get_elem? sites i ≡ some site)
      × (ctx'.site ≡ some i)
      × (is_upgrade_request s ≡ false)
      × IsCacheable contains_key s site
      × (limit ≡ site.cache.max_file_bytes)
unfolding request_cache_filter
request_cache_filter-IsCacheable contains_key s ctx ctx' sites limit h =
    elim (Option-cases (site_for s sites)) [
      | inl lost ↦ absurd (ground arith)
      | inr (i, found) ↦ elim (Option-cases (get_elem? sites i)) [
        | inl missed ↦ absurd (ground arith)
        | inr (site, at) ↦
            let (cacheable, same) =
              cache_for-IsCacheable contains_key s site limit (ground arith) in
            (i, site, found, at, ground arith, ground arith, cacheable, same)
      ]
    ]
