-- ===== src/Domains/Hosts.antt =====
-- src/domain_routing.rs: host names of requests and patterns of sites.
use konnector.Prelude.{
  Bool, true, false, ◌||◌, ◌&&◌, ◌-◌, not, none, some, ◌∷◌, Text, codes, str_eq, is_empty,
  strip_prefix, starts_with, ends_with, contains_char, split_once, rsplit_once, all_digits, trim,
  trim_end_matches, to_ascii_lowercase, if◌then◌else◌, length, take, ◌==◌,
}

-- `rest.split_once(']').map(|(host, _)| host).unwrap_or(rest)`
bracketed_host : Text → Text
bracketed_host rest = elim (split_once rest b']') [ none ↦ rest | some (host, tail) ↦ host ]

without_port : Text → Text
without_port authority = elim (rsplit_once authority b':') [
  | none ↦ authority
  | some (host, port) ↦ if all_digits port then host else authority
]

unfoldable pub normalize_host : Text → Text
unfolding bracketed_host without_port
normalize_host authority =
    let trimmed = trim_end_matches (λ c. c == b'.') (trim authority) in
    elim (strip_prefix trimmed (codes "[")) [
      | some rest ↦ bracketed_host rest
      | none ↦ without_port trimmed
    ]

-- The part of `host_matches` below `*.`: exactly one label before the suffix.
unfoldable pub one_label_below : Text → Text → Bool
one_label_below suffix host =
    let expected = b'.' ∷ suffix in
    let left = take (length host - length expected) host in
    if is_empty suffix
    then false
    else if not (ends_with host expected)
    then false
    else not (is_empty left) && not (contains_char left b'.')

-- `host_matches` on a pattern and a host that are normalised and in lower case.
unfoldable pub lowered_matches : Text → Text → Bool
unfolding one_label_below
lowered_matches pattern host =
    if str_eq pattern host then true else elim (strip_prefix pattern (codes "*.")) [
      | none ↦ false
      | some suffix ↦ one_label_below suffix host
    ]

unfoldable pub host_matches : Text → Text → Bool
unfolding lowered_matches normalize_host
host_matches pattern host =
    let p = normalize_host pattern in
    let h = normalize_host host in
    if is_empty p || is_empty h
    then false
    else lowered_matches (to_ascii_lowercase p) (to_ascii_lowercase h)

unfoldable pub is_wildcard : Text → Bool
unfolding normalize_host
is_wildcard domain = starts_with (normalize_host domain) (codes "*.")
