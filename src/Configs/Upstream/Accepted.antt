-- ===== src/Configs/Upstream/Accepted.antt =====
-- What an upstream of the configuration that `normalize_upstream` of src/configs.rs accepts looks like.
use konnector.Prelude.{
  ℕ, ◌≡◌, refl, Bool, true, false, not, ◌||◌, ◌&&◌, Option, none, some, [], ◌++◌, arith,
  if◌then◌else◌, ok, ◌>>=◌, ok_or, Text, codes, str_eq, is_empty, contains_char, trim_end_matches,
  print_uint, unwrap_or, is_some, ◌==◌, Result-cases, Option-cases, Bool-cases, inl, inr, >>=-eq-ok,
}
use konnector.Configs.Types.{UpstreamConfig, auto}
use mathlib.Core.Path.{subst}
use konnector.Prelude.{◌↔◌, sym, ap}
use konnector.Prelude.StringLaws.{str_eq-eq, str_eq_refl}
use konnector.Configs.Upstream.{
  RawUpstreamConfig, ParsedUrl, Named, by_address, by_url, named, of_address, bracketed, from_url,
  url_place, of_url, normalize_upstream, invalid_url,
}

-- What an accepted URL is: of HTTP, without credentials, query and fragment, with a host and port.
pub record IsPlainUrl (parsed : ParsedUrl) (hostname : Text) (port : ℕ) : Type 0 where
  pub scheme : (str_eq parsed.scheme (codes "http") || str_eq parsed.scheme (codes "https")) ≡ true
  pub anonymous : (is_empty parsed.username ≡ true) × (parsed.password ≡ none)
  pub only_path : (parsed.query ≡ none) × (parsed.fragment ≡ none)
  pub with_host : parsed.host_str ≡ some hostname
  pub at_port : parsed.port_or_known_default ≡ some port

-- Exactly one of the three fields that name an upstream is set.
abbrev pub names_one : RawUpstreamConfig → Bool
names_one raw = elim raw.instance_name [
  | some text ↦ not (is_some raw.address) && not (is_some raw.url)
  | none ↦ if is_some raw.address then not (is_some raw.url) else is_some raw.url
]

named-one : (raw : RawUpstreamConfig) (n : Named) → named raw ≡ ok n → names_one raw ≡ true
unfolding named
named-one raw n h = elim (Option-cases raw.instance_name) [
  | inl e ↦ elim (Option-cases raw.address) [
    | inl e' ↦ elim (Option-cases raw.url) [ inl f ↦ ground arith | inr (u, f) ↦ ground arith ]
    | inr (a, e') ↦ elim (Option-cases raw.url) [ inl f ↦ ground arith | inr (u, f) ↦ ground arith ]
  ]
  | inr (t, e) ↦ elim (Bool-cases (is_some raw.address || is_some raw.url)) [
    | inl both ↦ absurd (ground arith)
    | inr alone ↦ ground arith
  ]
]

ok_or-eq-ok {ℓ μ} :
    {E : Type μ} {A : Type ℓ} (o : Option A) (e : E) {a : A} → ok_or o e ≡ ok a → o ≡ some a
ok_or-eq-ok none e h = cc
ok_or-eq-ok (some b) e h = cc

nothing_set {ℓ} : {A : Type ℓ} (o : Option A) → is_some o ≡ false → o ≡ none
nothing_set none h = refl
nothing_set (some a) h = cc

url_place-IsPlainUrl :
    (parsed : ParsedUrl) {hostname : Text} {port : ℕ}
    → url_place parsed ≡ ok (hostname, port)
    → IsPlainUrl parsed hostname port
unfolding url_place
url_place-IsPlainUrl parsed h = elim (Option-cases parsed.host_str) [
  | inl e ↦ absurd (ground arith)
  | inr (name, named) ↦ elim (Option-cases parsed.port_or_known_default) [
    | inl e ↦ absurd (ground arith)
    | inr (n, numbered) ↦ record {
      scheme = ground arith;
      anonymous = (ground arith, nothing_set _ (ground arith));
      only_path = (nothing_set _ (ground arith), nothing_set _ (ground arith));
      with_host = ground arith;
      at_port = ground arith;
    }
  ]
]

of_url-IsPlainUrl :
    (parse : Text → Option ParsedUrl) (raw : RawUpstreamConfig) (value : Text) {u : UpstreamConfig}
    → of_url parse raw value ≡ ok u
    → (parsed : ParsedUrl) × (parse value ≡ some parsed)
      × (hostname : Text) × (port : ℕ) × IsPlainUrl parsed hostname port
      × (raw.tls ≡ none)
      × (raw.sni ≡ none)
      × (u ≡ from_url raw parsed hostname port)
unfolding of_url
of_url-IsPlainUrl parse raw value {u} h = elim (Bool-cases (is_some raw.tls || is_some raw.sni)) [
  | inl set ↦ absurd (ground arith)
  | inr unset ↦
      let chained : (ok_or (parse value) invalid_url >>= λ parsed.
      url_place parsed >>= λ place. ok (from_url raw parsed place.0 place.1))
          ≡ ok u =
        ground arith in
      let (parsed, found, more) =
        >>=-eq-ok (ok_or (parse value) invalid_url)
          (λ parsed. url_place parsed >>= λ place. ok (from_url raw parsed place.0 place.1))
          chained in
      let ((hostname, port), placed, same) =
        >>=-eq-ok (url_place parsed) (λ place. ok (from_url raw parsed place.0 place.1)) more in
      (
        parsed,
        ok_or-eq-ok (parse value) invalid_url found,
        hostname,
        port,
        url_place-IsPlainUrl parsed placed,
        nothing_set raw.tls (ground arith),
        nothing_set raw.sni (ground arith),
        ground (arith, same),
      )
]

-- An upstream of an address, with what was set beside it.
pub record IsOfAddress (raw : RawUpstreamConfig) (text : Text) (u : UpstreamConfig) : Type 0 where
  pub address : u.address ≡ text
  pub tls : (u.tls ≡ true) ↔ (raw.tls ≡ some true)
  pub sni : u.sni ≡ unwrap_or raw.sni []
  pub host : u.host ≡ raw.host
  pub ca_path : u.ca_path ≡ raw.ca_path
  pub base_path : u.base_path ≡ []
  pub http_version : u.http_version ≡ unwrap_or raw.http_version auto

-- An upstream of a URL: `place` is its host name, in brackets if that is an address of IPv6.
pub record IsOfUrl (raw : RawUpstreamConfig) (parsed : ParsedUrl) (hostname : Text) (port : ℕ)
    (u : UpstreamConfig) : Type 0 where
  pub place : Text
  pub named : contains_char hostname b':' ≡ false → place ≡ hostname
  pub numbered : contains_char hostname b':' ≡ true → place ≡ codes "[" ++ hostname ++ codes "]"
  pub address : u.address ≡ place ++ codes ":" ++ print_uint port
  pub tls : (u.tls ≡ true) ↔ (parsed.scheme ≡ codes "https")
  pub sni : u.sni ≡ hostname
  pub own_host : (host : Text) → raw.host ≡ some host → u.host ≡ some host
  pub default_port : raw.host ≡ none → parsed.port ≡ none → u.host ≡ some place
  pub own_port :
      (n : ℕ)
      → raw.host ≡ none
      → parsed.port ≡ some n
      → u.host ≡ some (place ++ codes ":" ++ print_uint n)
  pub ca_path : u.ca_path ≡ raw.ca_path
  pub base_path : u.base_path ≡ trim_end_matches (λ c. c == b'/') parsed.path
  pub http_version : u.http_version ≡ unwrap_or raw.http_version auto

switched_on : (o : Option Bool) → (unwrap_or o false ≡ true) ↔ (o ≡ some true)
switched_on none = (λ h. cc, λ h. cc)
switched_on (some b) = (λ h. ap some h, λ h. cc)

of_address-IsOfAddress :
    (raw : RawUpstreamConfig) (text : Text) → IsOfAddress raw text (of_address raw text)
unfolding of_address
of_address-IsOfAddress raw text = record {
  address = refl;
  tls = switched_on raw.tls;
  sni = refl;
  host = refl;
  ca_path = refl;
  base_path = refl;
  http_version = refl;
}

from_url-IsOfUrl :
    (raw : RawUpstreamConfig) (parsed : ParsedUrl) (hostname : Text) (port : ℕ)
    → IsOfUrl raw parsed hostname port (from_url raw parsed hostname port)
unfolding from_url bracketed
from_url-IsOfUrl raw parsed hostname port = record {
  place = bracketed hostname;
  named = λ h. rw h refl;
  numbered = λ h. rw h refl;
  address = refl;
  tls = (λ h. str_eq-eq parsed.scheme (codes "https") h, λ h. rw h (str_eq_refl (codes "https")));
  sni = refl;
  own_host = λ host h. rw h refl;
  default_port = λ h p. rw (h, p) refl;
  own_port = λ n h p. rw (h, p) refl;
  ca_path = refl;
  base_path = refl;
  http_version = refl;
}

-- What an accepted upstream comes from: an address, or a URL.
pub data Origin (parse : Text → Option ParsedUrl) (raw : RawUpstreamConfig) (u : UpstreamConfig)
    : Type 0 where
  address :
      (text : Text) → named raw ≡ ok (by_address text) → IsOfAddress raw text u → Origin parse raw u
  url :
      (value : Text) (parsed : ParsedUrl) (hostname : Text) (port : ℕ)
      → named raw ≡ ok (by_url value)
      → parse value ≡ some parsed
      → IsPlainUrl parsed hostname port
      → raw.tls ≡ none
      → raw.sni ≡ none
      → IsOfUrl raw parsed hostname port u
      → Origin parse raw u

-- An upstream is accepted only if exactly one of `instance`, `address` and `url` is set; it comes
-- from an address with what was set beside it, or from a URL of HTTP without credentials, query and
-- fragment, where neither TLS nor the SNI was set: TLS is on exactly for https, the SNI is the URL's
-- host name, the address that name with the port, and the base path the path without slashes behind.
pub normalize_upstream-Origin :
    (parse : Text → Option ParsedUrl) (raw : RawUpstreamConfig) (u : UpstreamConfig)
    → normalize_upstream parse raw ≡ ok u
    → (names_one raw ≡ true) × Origin parse raw u
unfolding normalize_upstream
normalize_upstream-Origin parse raw u h = elim (Result-cases (named raw)) [
  | inl (by_address text, e) ↦
      let same : of_address raw text ≡ u = ground arith in
      (
        named-one raw _ e,
        address text e (subst (IsOfAddress raw text) same (of_address-IsOfAddress raw text)),
      )
  | inl (by_url value, e) ↦
      let (parsed, found, hostname, port, plain, no_tls, no_sni, same) =
        of_url-IsPlainUrl parse raw value {u = u} (ground arith) in
      (
        named-one raw _ e,
        url value parsed hostname port e found plain no_tls no_sni (
            subst (IsOfUrl raw parsed hostname port) (sym same)
              (from_url-IsOfUrl raw parsed hostname port)),
      )
  | inr (e, failed) ↦ absurd (ground arith)
]
