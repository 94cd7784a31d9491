-- ===== src/Forwarding.antt =====
-- src/forwarding.rs: the public origin of a request, and the identity headers of the request to the
-- upstream.
pub mod Headers
use konnector.Prelude.{
  ℕ, ◌≡◌, refl, Bool, true, false, not, ◌||◌, ◌&&◌, Option, none, some, List, [], ◌∷◌, ◌++◌, arith,
  Text, codes, str_eq, rsplit_once, parse_uint, print_uint, if◌then◌else◌, unwrap_or, option_filter,
  get_elem?, Result, ok, err, ◌>>=◌, ok_or, Option-cases, inl, inr,
}
use konnector.Session.{Session}
use konnector.Http.{HttpLib, Request, ProxyError, explain, ErrorType}
use konnector.Configs.Types.{ForwardingConfig, cloudflare, trusted_proxy, primary_domain}
use konnector.Proxy.Runtime.{SiteRuntime, RequestContext}

unfoldable pub port_of_host : Text → Option ℕ
port_of_host host = elim (rsplit_once host b':') [
  | none ↦ none
  | some (name, port) ↦ parse_uint 65535 port
]

unfoldable pub public_port : Session → Option ℕ
unfolding port_of_host
public_port s = elim (s.header (codes "host")) [ none ↦ none | some host ↦ port_of_host host ]

abbrev pub native_scheme : Session → Text
native_scheme s = if s.ssl_digest then codes "https" else codes "http"

abbrev is_scheme : Text → Bool
is_scheme value = str_eq value (codes "http") || str_eq value (codes "https")

forwarded_scheme : Session → Text
forwarded_scheme s =
    unwrap_or (option_filter is_scheme (s.header (codes "x-forwarded-proto"))) (native_scheme s)

scheme_by : ForwardingConfig → Session → Text
scheme_by ForwardingConfig.direct s = native_scheme s
scheme_by cloudflare s = forwarded_scheme s
scheme_by trusted_proxy s = forwarded_scheme s

unfoldable pub public_scheme : Session → SiteRuntime → Text
unfolding scheme_by forwarded_scheme
public_scheme s site = scheme_by site.forwarding s

unfoldable pub public_host : Session → SiteRuntime → Text
unfolding primary_domain
public_host s site = unwrap_or (s.header (codes "host")) (primary_domain site.domains)

unfoldable pub public_origin : Session → SiteRuntime → Text
unfolding public_scheme public_host
public_origin s site = public_scheme s site ++ codes "://" ++ public_host s site

abbrev pub is_direct : ForwardingConfig → Bool
is_direct ForwardingConfig.direct = true
is_direct _ = false

abbrev pub is_cloudflare : ForwardingConfig → Bool
is_cloudflare cloudflare = true
is_cloudflare _ = false

module _ (lib : HttpLib) where
  open lib use {Headers, get, insert, remove, get_insert, get_remove}

  -- `insert_header(..)?`, whose error is pingora's
  unfoldable pub insert_header : Headers → Text → Text → Result ProxyError Headers
  insert_header h name value =
      ok_or (insert h name value) (explain ErrorType.other (codes "invalid header"))

  unfoldable pub insert_port : Option ℕ → Headers → Result ProxyError Headers
  unfolding insert_header
  insert_port none h = ok h
  insert_port (some port) h = insert_header h (codes "x-forwarded-port") (print_uint port)

  unfoldable pub remove_identity : ForwardingConfig → Headers → Headers
  remove_identity forwarding h =
      let no_cf =
        remove (remove (remove h (codes "cf-connecting-ip")) (codes "cf-ipcountry"))
          (codes "cf-ray") in
      let kept = if is_cloudflare forwarding then h else no_cf in
      if is_direct forwarding
      then remove (remove kept (codes "forwarded")) (codes "x-forwarded-for")
      else kept

  -- The three headers that are written.
  unfoldable pub write_headers : Session → SiteRuntime → Headers → Result ProxyError Headers
  unfolding insert_header insert_port
  write_headers s site h = insert_header h (codes "x-forwarded-host") (public_host s site) >>= λ h'.
      insert_header h' (codes "x-forwarded-proto") (public_scheme s site)
      >>= insert_port (public_port s)

  -- `apply` once the site is known.
  unfoldable pub apply_site :
      Session → SiteRuntime → Request Headers → Result ProxyError (Request Headers)
  unfolding write_headers remove_identity
  apply_site s site request = write_headers s site request.headers >>= λ h.
      ok (record request { headers = remove_identity site.forwarding h })

  unfoldable pub apply :
      Session
      → RequestContext
      → List SiteRuntime
      → Request Headers
      → Result ProxyError (Request Headers)
  unfolding apply_site
  apply s ctx sites request = elim ctx.site [
    | none ↦ ok request
    | some index ↦ elim (get_elem? sites index) [
      | none ↦ ok request
      | some site ↦ apply_site s site request
    ]
  ]
