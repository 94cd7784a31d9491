-- ===== src/Configs/Upstream.antt =====
-- src/configs.rs: `normalize_upstream`, which turns what the YAML says of an upstream into its
-- address. The parser of the url crate is a parameter, whose answer is a record of what its methods
-- return; an error is a constructor for its message.
pub mod Accepted
use konnector.Prelude.{
  ℕ, ◌≡◌, refl, Bool, true, false, not, ◌||◌, ◌&&◌, Option, none, some, [], ◌++◌, arith,
  if◌then◌else◌, Result, ok, err, ◌>>=◌, ok_or, reject_if, ◌>>◌, Text, codes, str_eq, is_empty,
  trim, contains, contains_char, trim_end_matches, print_uint, unwrap_or, or_else, is_some, ◌==◌,
  Result-cases, Option-cases, Bool-cases, inl, inr, >>=-eq-ok,
}
use konnector.Configs.Types.{UpstreamConfig, HttpVersion, auto}
use konnector.Configs.Tcp.{with_default_port}

pub record RawUpstreamConfig : Type 0 where
  pub instance_name : Option Text
  pub address : Option Text
  pub url : Option Text
  pub tls : Option Bool
  pub sni : Option Text
  pub host : Option Text
  pub ca_path : Option Text
  pub http_version : Option HttpVersion

pub record ParsedUrl : Type 0 where
  pub scheme : Text
  pub username : Text
  pub password : Option Text
  pub query : Option Text
  pub fragment : Option Text
  pub host_str : Option Text
  pub port : Option ℕ
  pub port_or_known_default : Option ℕ
  pub path : Text

pub data AddressError : Type 0 where
  empty_instance invalid_brackets : AddressError
  several_addresses address_and_url no_address : AddressError
  url_with_tls invalid_url invalid_scheme with_credentials with_query no_host no_port : AddressError

unfoldable pub normalize_instance_address : Text → Bool → Result AddressError Text
unfolding with_default_port
normalize_instance_address text tls =
    let value = trim text in
    if is_empty value
    then err empty_instance
    else with_default_port (if tls then 443 else 80) invalid_brackets value

-- What is named: an address or a URL.
pub data Named : Type 0 where
  by_address by_url : Text → Named

abbrev address_or_url : Option Text → Option Text → Result AddressError Named
address_or_url (some address) none = ok (by_address address)
address_or_url none (some url) = ok (by_url url)
address_or_url (some address) (some url) = err address_and_url
address_or_url none none = err no_address

-- An instance that has a scheme is a URL.
unfoldable pub named : RawUpstreamConfig → Result AddressError Named
unfolding normalize_instance_address contains
named raw = elim raw.instance_name [
  | none ↦ address_or_url raw.address raw.url
  | some text ↦
      if is_some raw.address || is_some raw.url
      then err several_addresses
      else if contains text (codes "://")
      then ok (by_url text)
      else normalize_instance_address text (unwrap_or raw.tls false) >>= λ address.
          ok (by_address address)
]

unfoldable pub of_address : RawUpstreamConfig → Text → UpstreamConfig
of_address raw address = record {
  address = address;
  tls = unwrap_or raw.tls false;
  sni = unwrap_or raw.sni [];
  host = raw.host;
  ca_path = raw.ca_path;
  base_path = [];
  http_version = unwrap_or raw.http_version auto;
}

unfoldable pub bracketed : Text → Text
unfolding contains_char
bracketed hostname =
    if contains_char hostname b':' then codes "[" ++ hostname ++ codes "]" else hostname

abbrev with_port : Text → Option ℕ → Text
with_port host none = host
with_port host (some port) = host ++ codes ":" ++ print_uint port

abbrev check_scheme : ParsedUrl → Result AddressError (Unit {0})
check_scheme parsed =
    reject_if (not (str_eq parsed.scheme (codes "http") || str_eq parsed.scheme (codes "https")))
      invalid_scheme

abbrev check_parts : ParsedUrl → Result AddressError (Unit {0})
check_parts parsed =
    reject_if (not (is_empty parsed.username) || is_some parsed.password) with_credentials
    >> reject_if (is_some parsed.query || is_some parsed.fragment) with_query

-- The upstream of a URL that was accepted, with its host and port.
unfoldable pub from_url : RawUpstreamConfig → ParsedUrl → Text → ℕ → UpstreamConfig
unfolding bracketed str_eq trim_end_matches
from_url raw parsed hostname port = record {
  address = bracketed hostname ++ codes ":" ++ print_uint port;
  tls = str_eq parsed.scheme (codes "https");
  sni = hostname;
  host = or_else raw.host (some (with_port (bracketed hostname) parsed.port));
  ca_path = raw.ca_path;
  base_path = trim_end_matches (λ c. c == b'/') parsed.path;
  http_version = unwrap_or raw.http_version auto;
}

-- The checks of a parsed URL, and its host and port.
unfoldable pub url_place : ParsedUrl → Result AddressError (Text × ℕ)
unfolding str_eq
url_place parsed =
    check_scheme parsed
    >> check_parts parsed
    >> (ok_or parsed.host_str no_host >>= λ hostname.
        ok_or parsed.port_or_known_default no_port >>= λ port. ok (hostname, port))

unfoldable pub of_url :
    (Text → Option ParsedUrl) → RawUpstreamConfig → Text → Result AddressError UpstreamConfig
unfolding from_url url_place
of_url parse raw value =
    if is_some raw.tls || is_some raw.sni
    then err url_with_tls
    else ok_or (parse value) invalid_url >>= λ parsed.
        url_place parsed >>= λ place. ok (from_url raw parsed place.0 place.1)

unfoldable pub normalize_upstream :
    (Text → Option ParsedUrl) → RawUpstreamConfig → Result AddressError UpstreamConfig
unfolding named of_address of_url
normalize_upstream parse raw = named raw >>= λ n. elim n [
  | by_address address ↦ ok (of_address raw address)
  | by_url value ↦ of_url parse raw value
]
