-- ===== src/Tests/Data.antt =====
-- Configurations, sites and sessions for the tests, and concrete libraries: an association list for
-- the header map, and parsers for URIs and URLs that know paths alone.
use konnector.Prelude.{
  ◌≡◌, sym, ap, true, false, Option, none, some, List, [], ◌∷◌, arith, Text, codes, str_eq,
  if◌then◌else◌, split_once, starts_with,
}
use konnector.Prelude.StringLaws.{str_eq_iff}
use konnector.Configs.Listen
use konnector.Configs.Traffic
use konnector.Configs.Types.{
  HttpVersion, LogLevel, UpstreamConfig, InternalRouteConfig, ProxyTarget, AccessPolicy,
  CacheConfig, ForwardingConfig, SiteConfig,
}
use konnector.Http.{Uri, HttpLib}
use konnector.Session.{Session}
use konnector.Proxy.Runtime.{UpstreamRuntime, SiteRuntime, PathRewriteState}
use konnector.PathRewrite.Location.{UrlLib}

abbrev pub backend : UpstreamConfig
backend = record {
  address = codes "127.0.0.1:3000";
  tls = false;
  sni = [];
  host = none;
  ca_path = none;
  base_path = [];
  http_version = HttpVersion.auto;
}

abbrev pub api_route : InternalRouteConfig
api_route = record { prefix = codes "/api/"; upstream = backend; strip_prefix = true }

abbrev pub no_cache : CacheConfig
no_cache = record { enabled = false; max_file_bytes = 0 }

abbrev pub site_config : Text → SiteConfig
site_config domain = record {
  enabled = true;
  domains = domain ∷ [];
  listen = Listen.both;
  traffic = Traffic.http_only;
  target = ProxyTarget.direct backend;
  internal_routes = [];
  redirects = [];
  redirect_https = false;
  access = AccessPolicy.all_paths;
  cache = no_cache;
  forwarding = ForwardingConfig.direct;
  logging = none;
  http = HttpVersion.auto;
  source_file = codes "example";
}

abbrev pub site_named : Text → SiteRuntime
site_named domain = record {
  domains = domain ∷ [];
  target = UpstreamRuntime.direct backend;
  internal_routes = [];
  redirects = [];
  access = AccessPolicy.all_paths;
  cache = no_cache;
  forwarding = ForwardingConfig.direct;
  logging = LogLevel.info;
  listen = Listen.both;
  traffic = Traffic.http_only;
  redirect_https = false;
  source_file = codes "example";
}

-- A request over plain HTTP.
abbrev pub session_with : (Text → Option Text) → Option Text → Text → Session
session_with header authority path = record {
  is_upgrade_req = false;
  header = header;
  method = codes "GET";
  path = path;
  query = none;
  authority = authority;
  ssl_digest = false;
  client_is_loopback = false;
}

abbrev pub host_header : Text → Text → Option Text
host_header host name = if str_eq name (codes "host") then some host else none

abbrev pub request_to : Text → Text → Session
request_to host path = session_with (host_header host) none path

-- As over HTTP/2: the host is in the URI.
abbrev pub request_by_uri : Text → Text → Session
request_by_uri host path = session_with (λ name. none) (some host) path

-- The header map.
abbrev pub HeaderList : Type 0
HeaderList = List (Text × Text)

unfoldable pub look_up : HeaderList → Text → Option Text
look_up [] name = none
look_up ((n, v) ∷ h) name = if str_eq n name then some v else look_up h name

unfoldable pub drop_name : HeaderList → Text → HeaderList
drop_name [] name = []
drop_name ((n, v) ∷ h) name =
    let rest = drop_name h name in if str_eq n name then rest else (n, v) ∷ rest

pub look_up-drop_name :
    (h : HeaderList) (name other : Text)
    → look_up (drop_name h name) other ≡ (if str_eq name other then none else look_up h other)
unfolding look_up drop_name
look_up-drop_name [] name other = ground arith
look_up-drop_name ((n, v) ∷ h) name other = ground (
  arith,
  look_up-drop_name h name other,
  str_eq_iff n name,
  str_eq_iff n other,
  str_eq_iff name other,
)

pub look_up-insert :
    (h : HeaderList) (h' : HeaderList) (name value : Text)
    → some ((name, value) ∷ h) ≡ some h'
    → (other : Text)
    → look_up h' other ≡ (if str_eq name other then some value else look_up h other)
unfolding look_up
look_up-insert h h' name value e other =
    let same : (name, value) ∷ h ≡ h' = cc in ap (λ x. look_up x other) (sym same)

unfoldable pub path_uri : Text → Uri
path_uri text = elim (split_once text b'?') [
  | none ↦ record { path = text; query = none; authority = none }
  | some (path, query) ↦ record { path = path; query = some query; authority = none }
]

abbrev pub http_lib : HttpLib
http_lib = record {
  Headers = HeaderList;
  get = look_up;
  to_str = λ value. some value;
  insert = λ h name value. some ((name, value) ∷ h);
  remove = drop_name;
  parse_uri = λ text. if starts_with text (codes "/") then some (path_uri text) else none;
  get_insert = look_up-insert;
  get_remove = look_up-drop_name;
}

-- Every location is relative.
abbrev pub url_lib : UrlLib
url_lib = record {
  Url = Unit;
  parse = λ location. none;
  path = λ url. [];
  with_path = λ url path. path;
}

abbrev pub rewriting : PathRewriteState
rewriting = record {
  prefix = codes "/app";
  rewrite_body = true;
  buffer = [];
  upstream_origins = [];
  public_origin = codes "http://example.com";
}
