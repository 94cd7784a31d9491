-- ===== src/Http3/Headers.antt =====
-- src/http3.rs: the headers that are sent to an upstream over HTTP/3. Names are in lower case, as in a
-- header map; a map is iterated value by value, with the name of each.
use konnector.Prelude.{
  ◌≡◌, sym, ap, ◌∙◌, Bool, true, false, ◌||◌, List, [], ◌∷◌, arith, if◌then◌else◌, any, is_empty,
  Result, ok, err, ◌>>=◌, >>=-eq-ok, ok_or, Text, codes, str_eq, to_ascii_lowercase, Bool-cases,
  inl, inr,
}
use konnector.Prelude.StringLaws.{str_eq_comm, str_eq-eq}
use konnector.Configs.Types.{UpstreamConfig}
use konnector.Http.{HttpLib, Request, Uri, ProxyError, internal_error, explain, with_query}
use konnector.Upstreams.Transform.{upstream_host_header}

abbrev hop_by_hop : List Text
hop_by_hop =
    codes "connection"
    ∷ codes "keep-alive"
    ∷ codes "proxy-authenticate"
    ∷ codes "proxy-authorization"
    ∷ codes "te"
    ∷ codes "trailers"
    ∷ codes "transfer-encoding"
    ∷ codes "upgrade"
    ∷ []

unfoldable pub is_hop_by_hop : Text → Bool
unfolding to_ascii_lowercase
is_hop_by_hop name = any (str_eq (to_ascii_lowercase name)) hop_by_hop

abbrev pub host : Text
host = codes "host"

-- The request as the builder is given it: the headers in the order of the calls of `header`, which
-- appends.
pub record H3Request : Type 0 where
  pub uri : Uri
  pub headers : List (Text × Text)

-- `is_hop_by_hop(name) || name == header::HOST`
abbrev pub is_left_out : Text → Bool
is_left_out name = is_hop_by_hop name || str_eq name host

unfoldable pub copied_headers : List (Text × Text) → List (Text × Text)
unfolding is_hop_by_hop
copied_headers [] = []
copied_headers ((name, value) ∷ rest) =
    let later = copied_headers rest in if is_left_out name then later else (name, value) ∷ later

-- The values of one name, in order.
abbrev pub values : Text → List (Text × Text) → List Text
values name [] = []
values name ((n, value) ∷ rest) =
    let later = values name rest in if str_eq n name then value ∷ later else later

module _ (lib : HttpLib) (iter : lib.Headers → List (Text × Text)) where
  open lib use {Headers, get, parse_uri}

  -- `uri.path_and_query()`, or `/`
  path_of : Request Headers → Text
  path_of request =
      let path = with_query request.path request.query in if is_empty path then codes "/" else path

  built_headers : Request Headers → UpstreamConfig → List (Text × Text)
  unfolding copied_headers upstream_host_header
  built_headers request upstream =
      (host, upstream_host_header upstream) ∷ copied_headers (iter request.headers)

  -- `buildable` is whether `body` accepts what the builder was given.
  unfoldable pub build_http_request :
      (H3Request → Bool) → Request Headers → UpstreamConfig → Result ProxyError H3Request
  unfolding path_of built_headers
  build_http_request buildable request upstream =
      ok_or (parse_uri (path_of request))
        (explain internal_error (codes "invalid http/3 request uri"))
      >>= λ uri.
          let built : H3Request = record { uri = uri; headers = built_headers request upstream } in
          if buildable built
          then ok built
          else err (explain internal_error (codes "invalid http/3 request"))

  build_http_request-headers :
      (buildable : H3Request → Bool) (request : Request Headers) (upstream : UpstreamConfig)
      (built : H3Request)
      → build_http_request buildable request upstream ≡ ok built
      → built_headers request upstream ≡ built.headers
  unfolding build_http_request
  build_http_request-headers buildable request upstream built h =
      let (uri, _, rest) =
        >>=-eq-ok
          (ok_or (parse_uri (path_of request))
            (explain internal_error (codes "invalid http/3 request uri")))
          _ h in
      let made : H3Request = record { uri = uri; headers = built_headers request upstream } in
      chosen made (buildable made) rest
    where
      chosen :
          (made : H3Request) (accepted : Bool)
          → (if accepted
              then ok made
              else err (explain internal_error (codes "invalid http/3 request")))
            ≡ ok built
          → made.headers ≡ built.headers
      chosen made true e = let same : made ≡ built = cc in ap (λ r. r.headers) same
      chosen made false e = cc

values-copied :
    (name : Text) (pairs : List (Text × Text))
    → values name (copied_headers pairs) ≡ (if is_left_out name then [] else values name pairs)
unfolding copied_headers
values-copied name [] = ground arith
values-copied name ((n, value) ∷ rest) = elim (Bool-cases (str_eq n name)) [
  | inl same ↦
      let alike : is_left_out n ≡ is_left_out name = ap is_left_out (str_eq-eq n name same) in
      ground (arith, values-copied name rest, alike, same)
  | inr other ↦ ground (arith, values-copied name rest, other)
]

values-with_host :
    (authority name : Text) (pairs : List (Text × Text))
    → values name ((host, authority) ∷ copied_headers pairs) ≡ (
        if str_eq host name
        then authority ∷ []
        else if is_hop_by_hop name
        then []
        else values name pairs)
values-with_host authority name pairs =
    ground (arith, values-copied name pairs, str_eq_comm name host)

-- The request to an upstream over HTTP/3 carries the host of the upstream as its only `host`, no
-- hop-by-hop header, and of every other name all the values of the request, in their order.
pub build_http_request-values :
    (lib : HttpLib) (iter : lib.Headers → List (Text × Text)) (buildable : H3Request → Bool)
    (request : Request lib.Headers) (upstream : UpstreamConfig) (built : H3Request) (name : Text)
    → build_http_request lib iter buildable request upstream ≡ ok built
    → values name built.headers ≡ (
        if str_eq host name
        then upstream_host_header upstream ∷ []
        else if is_hop_by_hop name
        then []
        else values name (iter request.headers))
unfolding built_headers
build_http_request-values lib iter buildable request upstream built name h =
    ap (values name) (sym (build_http_request-headers lib iter buildable request upstream built h))
    ∙ values-with_host (upstream_host_header upstream) name (iter request.headers)
