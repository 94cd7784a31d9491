-- ===== src/Configs/Tcp.antt =====
-- src/configs.rs: `TcpProxyConfig`, `TcpUpstreamConfig` and the addresses they stand for. An error is
-- a constructor for its message.
use konnector.Prelude.{
  ℕ, Bool, false, ◌||◌, ◌&&◌, Option, none, some, List, [], ◌∷◌, ◌++◌, if◌then◌else◌, Result, ok,
  err, ◌>>=◌, ok_or, Text, codes, str_eq, is_empty, trim, strip_prefix, starts_with, ends_with,
  contains, rsplit_once, is_ascii_digit, all_digits, all, parse_uint, print_uint, or_else,
  option_filter, ◌==◌, ltb, length, filter,
}
use konnector.Prelude.IpAddr.{is_ip_addr}

pub record TcpUpstreamConfig : Type 0 where
  pub instance_name : Option Text
  pub address_name : Option Text

pub record TcpProxyConfig : Type 0 where
  pub enabled : Bool
  pub name : Text
  pub listen : Text
  pub upstream : TcpUpstreamConfig
  pub source_file : Text

pub data TcpError : Type 0 where
  empty_listen : TcpError
  listen_domain invalid_listen invalid_port : Text → TcpError
  no_upstream empty_upstream invalid_brackets : TcpError
  blank_listen : TcpError
  duplicate_port : ℕ → TcpError

unfoldable pub is_listen_host : Text → Bool
unfolding is_ip_addr str_eq starts_with
is_listen_host host =
    is_ip_addr host
    || str_eq host (codes "0.0.0.0")
    || str_eq host (codes "localhost")
    || starts_with host (codes "[")

-- The last part of `normalize_listen_address`.
unfoldable pub host_and_port : Text → Result TcpError Text
host_and_port value = elim (rsplit_once value b':') [
  | none ↦ err (invalid_listen value)
  | some (host, port) ↦
      if is_listen_host host
      then (if all_digits port then ok value else err (invalid_listen value))
      else err (listen_domain value)
]

abbrev pub on_all_interfaces : Text → Text
on_all_interfaces port = codes "0.0.0.0:" ++ port

unfoldable pub normalize_listen_address : Text → Result TcpError Text
unfolding host_and_port
normalize_listen_address text =
    let value = trim text in
    if is_empty value
    then err empty_listen
    else if all is_ascii_digit value
    then ok (on_all_interfaces value)
    else elim (option_filter all_digits (strip_prefix value (codes ":"))) [
      | some port ↦ ok (on_all_interfaces port)
      | none ↦ host_and_port value
    ]

unfoldable pub listen_address : TcpProxyConfig → Result TcpError Text
unfolding normalize_listen_address
listen_address config = normalize_listen_address config.listen

abbrev max_port : ℕ
max_port = 65535

unfoldable pub listen_port : TcpProxyConfig → Result TcpError ℕ
listen_port config = listen_address config >>= λ address. elim (rsplit_once address b':') [
  | none ↦ err (invalid_port config.listen)
  | some (host, port) ↦ ok_or (parse_uint max_port port) (invalid_port config.listen)
]

-- The second address of a listener on all interfaces.
unfoldable pub listen_ipv6 : Text → List Text
listen_ipv6 primary =
    if starts_with primary (codes "0.0.0.0:")
    then elim (rsplit_once primary b':') [
      | none ↦ []
      | some (host, port) ↦ (codes "[::]:" ++ port) ∷ []
    ]
    else []

unfoldable pub listen_addresses : TcpProxyConfig → Result TcpError (List Text)
unfolding listen_ipv6
listen_addresses config = listen_address config >>= λ primary. ok (primary ∷ listen_ipv6 primary)

unfoldable pub colon_count : Text → ℕ
colon_count s = length (filter (λ c. c == b':') s)

unfoldable pub has_port : Text → Bool
has_port value = elim (rsplit_once value b':') [
  | none ↦ false
  | some (host, port) ↦ all_digits port
]

-- What `normalize_tcp_address` and `normalize_instance_address` do alike with a trimmed address that
-- is not empty: `failure` is the error of a bracket that is not closed.
unfoldable pub with_default_port {ℓ} : {E : Type ℓ} → ℕ → E → Text → Result E Text
unfolding colon_count has_port
with_default_port port failure value =
    let suffix = codes ":" ++ print_uint port in
    if starts_with value (codes "[")
    then (if contains value (codes "]:")
        then ok value
        else if ends_with value (codes "]")
        then ok (value ++ suffix)
        else err failure)
    else if ltb 1 (colon_count value)
    then ok (codes "[" ++ value ++ codes "]" ++ suffix)
    else if colon_count value == 1 && has_port value
    then ok value
    else ok (value ++ suffix)

unfoldable pub normalize_tcp_address : Text → Result TcpError Text
unfolding with_default_port
normalize_tcp_address text =
    let value = trim text in
    if is_empty value then err empty_upstream else with_default_port 5432 invalid_brackets value

-- TcpUpstreamConfig::address
unfoldable pub upstream_address : TcpUpstreamConfig → Result TcpError Text
unfolding normalize_tcp_address
upstream_address upstream =
    ok_or (or_else upstream.instance_name upstream.address_name) no_upstream >>= λ text.
    let value = trim text in
    if is_empty value then err empty_upstream else normalize_tcp_address value
