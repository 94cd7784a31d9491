-- ===== src/Tests/Protocols.antt =====
-- The theorems on the ACME protocol, the exchange over HTTP/3 and the installation of an archive at
-- concrete inputs.
use konnector.Prelude.{
  ℕ, ◌≡◌, refl, sym, Bool, true, false, if◌then◌else◌, none, some, List, [], ◌∷◌, ◌++◌, Text,
  Result, Checked, codes, ok, err, map, map_err, str_eq, ltb, All, arith, split_once, starts_with,
}
use konnector.Prelude.Sorting.{mem}
use konnector.Configs.Tls.{TlsProviderConfig, TlsProviderKind}
use konnector.Http.{Request}
use konnector.Http3.Headers.{
  H3Request, build_http_request, build_http_request-values, host, is_hop_by_hop, values,
}
use konnector.Http3.Response.{insert_all, insert_all-last, last_value, only_last}
use konnector.Http3.Exchange.{relay_body, taken, relay_body-fits}
use konnector.Proxy.Runtime.{RequestContext, fresh_context}
use konnector.PathRewrite.Stream.{finished, concat}
use konnector.Upstreams.Transform.{upstream_host_header}
use konnector.Acme.Challenges.{challenge_response}
use konnector.Acme.Issuance.{
  Challenge, Authorization, Order, OrderStatus, authorize, tokens_of, challenges_of, IsServed,
  issue_certificate_async,
}
use konnector.Acme.Issuance.Cleared.{
  clears_up, issue_certificate_async-clears, issue_certificate_async-leaks,
}
use konnector.Acme.Account.{
  Client, AccountError, load_or_create_account, load_or_create_account-keeps,
}
use konnector.Cli.Archive.{ArchiveTools, Kind, Layout, install_archive, prepare_release}
use konnector.Cli.Archive.Installed.{IsInstalled, install_archive-IsInstalled}
use konnector.Platform.Activation.{Host, Answers, activate_release}
use konnector.Tests.Data.{
  http_lib, look_up, look_up-insert, path_uri, HeaderList, backend, rewriting,
}

abbrev shop_challenge : Challenge
shop_challenge = record {
  token = codes "tok";
  key_authorization = codes "tok.key";
  set_ready = ok tt;
}

abbrev order_with : Result Text OrderStatus → Order
order_with polled = record {
  authorizations = ok Authorization.valid ∷ ok (Authorization.pending (some shop_challenge)) ∷ [];
  poll_ready = λ store. polled;
  finalize = ok (codes "key");
  poll_certificate = ok (codes "certificate");
}

abbrev write : Text → Text → Checked Text
write certificate key = ok tt

issue_certificate_async-clears_example :
    (let after =
        issue_certificate_async (ok tt) (ok (order_with (ok OrderStatus.ready))) write [] in
      challenge_response (codes "tok") after.0 ≡ (
        if clears_up after.1
        then (if mem (codes "tok") (tokens_of (order_with (ok OrderStatus.ready)).authorizations)
            then none
            else challenge_response (codes "tok") [])
        else challenge_response
            (codes "tok")
            (authorize (order_with (ok OrderStatus.ready)).authorizations [] []).0))
issue_certificate_async-clears_example =
    issue_certificate_async-clears (order_with (ok OrderStatus.ready)) write [] (codes "tok")

issue_certificate_async-leaks_example :
    All
      (IsServed
        (issue_certificate_async (ok tt) (ok (order_with (err (codes "timeout")))) write []).0)
      (challenges_of (order_with (err (codes "timeout"))).authorizations)
unfolding issue_certificate_async authorize
issue_certificate_async-leaks_example =
    issue_certificate_async-leaks (order_with (err (codes "timeout"))) write [] (codes "tok" ∷ [])
      (refl, tt) refl refl

-- Accounts and credentials are texts; a staging account is told from another by its text.
abbrev acme_client : Client Text Text
acme_client = record {
  staging_url = codes "staging";
  production_url = codes "production";
  create_dir_all = ok tt;
  readable = ok tt;
  writable = ok tt;
  builder = ok tt;
  from_str = λ text. ok text;
  from_credentials = λ credentials. ok credentials;
  create = λ directory. ok (directory, directory);
  to_string_pretty = λ credentials. ok credentials;
}

abbrev acme_provider : Bool → TlsProviderConfig
acme_provider staging = record {
  provider = TlsProviderKind.acme;
  cloudflare_api_token = none;
  fetch_command = none;
  check_interval_seconds = 21600;
  acme_staging = staging;
  tls_dir = none;
}

abbrev ssl : Text
ssl = codes "/etc/ssl/konnector"

-- Created with staging, the account stays that of staging in production.
load_or_create_account-keeps_example :
    (let after = (load_or_create_account acme_client ssl (acme_provider true) (λ path. none)).0 in
      (credentials : Text) × (acme_client.create (codes "staging")
        ≡ ok (codes "staging", credentials))
      × (load_or_create_account acme_client ssl (acme_provider false) after
          ≡ (after, map_err AccountError.not_restored (acme_client.from_credentials credentials))))
unfolding load_or_create_account
load_or_create_account-keeps_example =
    load_or_create_account-keeps acme_client ssl (acme_provider true) (acme_provider false)
      (λ path. none) (codes "staging") (λ credentials text written. sym written) refl refl refl refl

abbrev shop_request : Request HeaderList
shop_request = record {
  path = codes "/cart";
  query = none;
  headers =
      (codes "host", codes "shop.com")
      ∷ (codes "te", codes "trailers")
      ∷ (codes "cookie", codes "a=1")
      ∷ (codes "cookie", codes "b=2")
      ∷ [];
}

abbrev accepts : H3Request → Bool
accepts request = true

abbrev pairs : HeaderList → List (Text × Text)
pairs headers = headers

abbrev shop_h3 : H3Request
shop_h3 = record {
  uri = record { path = codes "/cart"; query = none; authority = none };
  headers =
      (codes "host", upstream_host_header backend)
      ∷ (codes "cookie", codes "a=1")
      ∷ (codes "cookie", codes "b=2")
      ∷ [];
}

build_http_request-values_example : values (codes "cookie") shop_h3.headers ≡ (
    if str_eq host (codes "cookie")
    then upstream_host_header backend ∷ []
    else if is_hop_by_hop (codes "cookie")
    then []
    else values (codes "cookie") (pairs shop_request.headers))
unfolding build_http_request starts_with path_uri str_eq split_once
build_http_request-values_example =
    build_http_request-values http_lib pairs accepts shop_request backend shop_h3 (codes "cookie")
      refl

abbrev two_cookies : List (Text × Text)
two_cookies = (codes "set-cookie", codes "a=1") ∷ (codes "set-cookie", codes "b=2") ∷ []

abbrev client_headers : HeaderList
client_headers = (codes "set-cookie", codes "b=2") ∷ (codes "set-cookie", codes "a=1") ∷ []

-- The header map keeps what an insertion hides, so its values are the first one.
abbrev get_all : HeaderList → Text → List Text
get_all h name = elim (look_up h name) [ none ↦ [] | some value ↦ value ∷ [] ]

get_all_insert :
    (h h' : HeaderList) (name value : Text)
    → http_lib.insert h name value ≡ some h'
    → (other : Text)
    → get_all h' other ≡ (if str_eq name other then value ∷ [] else get_all h other)
get_all_insert h h' name value e other = ground (arith, look_up-insert h h' name value e other)

insert_all-last_example : get_all client_headers (codes "set-cookie") ≡ (
    if is_hop_by_hop (codes "set-cookie")
    then get_all [] (codes "set-cookie")
    else only_last (last_value (codes "set-cookie") two_cookies) (get_all [] (codes "set-cookie")))
unfolding insert_all str_eq
insert_all-last_example =
    insert_all-last http_lib get_all get_all_insert two_cookies [] client_headers
      (codes "set-cookie") refl

abbrev chunks : List (List ℕ)
chunks = codes "<a href=\"/x\">" ∷ codes "</a>" ∷ []

abbrev rewriting_context : RequestContext
rewriting_context = record fresh_context { path_rewrite = some rewriting }

relay_body-fits_example :
    ((relay_body (map taken chunks) (ok tt) rewriting_context).body
      ≡ finished (codes "/app") ([] ++ concat chunks))
    × ((relay_body (map taken chunks) (ok tt) rewriting_context).result ≡ ok tt)
relay_body-fits_example =
    relay_body-fits chunks rewriting_context rewriting refl (refl, refl) (omega arith)

abbrev nested : Layout
nested name =
    if str_eq name (codes "konnector")
    then some Kind.file
    else if str_eq name (codes "configs")
    then some Kind.directory
    else none

-- The archive has one directory with everything in it.
abbrev tools : ArchiveTools
tools = record {
  ensure_layout = ok tt;
  download = ok tt;
  has_sum = true;
  sha256sum = ok tt;
  create_dir_all = ok tt;
  extract = ok (λ name. none);
  directories = ok (nested ∷ []);
  copy = λ name. ok tt;
  set_executable = ok tt;
  grant_bind_capability = ok tt;
  chown_release = ok tt;
}

abbrev answers : Answers
answers = record {
  canonicalize = λ path. some path;
  removes_link = true;
  symlink = λ release. ok tt;
  install_cli_link = ok tt;
  install_service = ok tt;
  restart_or_start = ok tt;
  is_active = λ attempt. ltb 2 attempt;
  health_check = λ attempt. ltb 4 attempt;
  prune = ok tt;
}

abbrev fresh_host : Host
fresh_host = record { current = none; rollback_restarts = 0 }

install_archive-IsInstalled_example :
    IsInstalled tools answers
      (codes "konnector.tar.gz")
      (codes "/opt/konnector/releases/1")
      (install_archive tools answers
        (codes "konnector.tar.gz")
        (codes "/opt/konnector/releases/1")
        fresh_host).0
unfolding install_archive activate_release prepare_release str_eq
install_archive-IsInstalled_example =
    install_archive-IsInstalled tools answers (codes "konnector.tar.gz")
      (codes "/opt/konnector/releases/1") fresh_host refl
