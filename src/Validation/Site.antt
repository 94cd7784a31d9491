-- ===== src/Validation/Site.antt =====
-- src/validation.rs: `validate_site` and `filter_valid_sites`. The map of claimed domains is an
-- association list; the map that a refused site leaves is a trial copy that the source drops. The
-- two warnings of `validate_site` are not modelled, and an error is a constructor for its message.
use konnector.Prelude.{
  ℕ, Bool, true, false, ◌||◌, ◌&&◌, not, none, some, List, [], ◌∷◌, if◌then◌else◌, Result, Checked,
  ok, err, ◌>>=◌, ◌>>◌, reject_if, map_err, Text, codes, str_eq, is_empty, strip_prefix,
  starts_with, ends_with, contains_char, to_ascii_lowercase, any, ◌==◌,
}
use konnector.Configs.Types.{
  SiteConfig, AccessPolicy, all_paths, only_prefixes, InternalRouteConfig, RedirectRule,
  RedirectMatch, exact, prefix,
}
use konnector.Domains.Hosts.{normalize_host}
use konnector.Domains.Claims.{DomainClaim, unclaimed, ClaimError, claim}
use konnector.Validation.Upstream.{
  UpstreamError, is_empty_list, validate_upstream, validate_upstreams, proxy_target_upstreams,
}

pub data SiteError : Type 0 where
  no_domains no_listener no_traffic empty_domain : SiteError
  invalid_wildcard : Text → SiteError
  duplicate_domain : ClaimError → Text → SiteError
  empty_allowlist invalid_url_prefix invalid_route duplicate_route : SiteError
  bad_upstream : UpstreamError → SiteError
  invalid_redirect_status invalid_redirect_source invalid_redirect_destination : SiteError
  prefix_without_slash duplicate_redirect invalid_cache_limit https_redirect_without_http :
      SiteError

abbrev pub ClaimMap : Type 0
ClaimMap = List (Text × DomainClaim)

-- `domains.entry(key).or_default()`
unfoldable pub claim_of : Text → ClaimMap → DomainClaim
claim_of key [] = unclaimed
claim_of key ((k, c) ∷ m) = if str_eq k key then c else claim_of key m

unfoldable pub put_claim : Text → DomainClaim → ClaimMap → ClaimMap
put_claim key c [] = (key, c) ∷ []
put_claim key c ((k, d) ∷ m) = if str_eq k key then (k, c) ∷ m else (k, d) ∷ put_claim key c m

unfoldable pub invalid_star : Text → Bool
invalid_star normalized = elim (strip_prefix normalized (codes "*.")) [
  | none ↦ false
  | some rest ↦ is_empty rest || not (contains_char rest b'.') || starts_with rest (codes ".")
]

-- The body of the loop over the domains.
unfoldable pub claim_domain : SiteConfig → Text → ClaimMap → Result SiteError ClaimMap
unfolding invalid_star claim_of put_claim
claim_domain site domain m =
    let normalized = normalize_host domain in
    let key = to_ascii_lowercase normalized in
    if is_empty normalized
    then err empty_domain
    else if invalid_star normalized
    then err (invalid_wildcard domain)
    else map_err (λ e. duplicate_domain e domain) (claim (claim_of key m) site.listen site.traffic)
      >>= λ c. ok (put_claim key c m)

unfoldable pub claim_domains : SiteConfig → List Text → ClaimMap → Result SiteError ClaimMap
claim_domains site [] m = ok m
claim_domains site (d ∷ ds) m = claim_domain site d m >>= claim_domains site ds

-- `!s.starts_with('/') || s.contains('?') || s.contains('#')`
unfoldable pub invalid_path : Text → Bool
invalid_path s = not (starts_with s (codes "/")) || contains_char s b'?' || contains_char s b'#'

unfoldable pub check_access : AccessPolicy → Checked SiteError
unfolding invalid_path
check_access all_paths = ok tt
check_access (only_prefixes prefixes) =
    if is_empty_list prefixes
    then err empty_allowlist
    else if any invalid_path prefixes
    then err invalid_url_prefix
    else ok tt

-- The loop over the internal routes, with the prefixes seen so far.
unfoldable pub check_routes :
    (Text → Bool) → List InternalRouteConfig → List Text → Checked SiteError
unfolding invalid_path
check_routes is_file [] seen = ok tt
check_routes is_file (r ∷ rs) seen =
    reject_if (invalid_path r.prefix) invalid_route
    >> reject_if (any (str_eq r.prefix) seen) duplicate_route
    >> map_err bad_upstream (validate_upstream is_file r.upstream)
    >> check_routes is_file rs (r.prefix ∷ seen)

unfoldable pub is_prefix_match : RedirectMatch → Bool
is_prefix_match prefix = true
is_prefix_match exact = false

unfoldable pub valid_status : ℕ → Bool
valid_status n = n == 301 || n == 302 || n == 307 || n == 308

unfoldable pub invalid_destination : Text → Bool
invalid_destination to =
    not (
      starts_with to (codes "/")
      || starts_with to (codes "http://")
      || starts_with to (codes "https://"))
    || contains_char to 13
    || contains_char to 10

unfoldable pub lacks_slash : RedirectRule → Bool
lacks_slash rule = not (ends_with rule.from (codes "/")) || not (ends_with rule.to (codes "/"))

abbrev same_rule : RedirectRule → (Text × Bool) → Bool
same_rule rule (from, is_prefix) =
    str_eq rule.from from && (if is_prefix_match rule.match_type then is_prefix else not is_prefix)

unfoldable pub check_redirect : RedirectRule → List (Text × Bool) → Checked SiteError
unfolding valid_status invalid_path invalid_destination lacks_slash is_prefix_match
check_redirect rule seen =
    reject_if (not (valid_status rule.status)) invalid_redirect_status
    >> reject_if (invalid_path rule.from) invalid_redirect_source
    >> reject_if (invalid_destination rule.to) invalid_redirect_destination
    >> reject_if (is_prefix_match rule.match_type && lacks_slash rule) prefix_without_slash
    >> reject_if (any (same_rule rule) seen) duplicate_redirect

unfoldable pub check_redirects : List RedirectRule → List (Text × Bool) → Checked SiteError
unfolding check_redirect
check_redirects [] seen = ok tt
check_redirects (rule ∷ rules) seen =
    check_redirect rule seen
    >> check_redirects rules ((rule.from, is_prefix_match rule.match_type) ∷ seen)

unfoldable pub check_modes : SiteConfig → Checked SiteError
check_modes site =
    reject_if (is_empty_list site.domains) no_domains
    >> reject_if (not site.listen.http && not site.listen.https) no_listener
    >> reject_if (not site.traffic.http && not site.traffic.websocket) no_traffic

unfoldable pub check_target : (Text → Bool) → SiteConfig → Checked SiteError
check_target is_file site =
    map_err bad_upstream (proxy_target_upstreams site.target >>= validate_upstreams is_file)

unfoldable pub check_options : SiteConfig → Checked SiteError
check_options site =
    reject_if (site.cache.enabled && site.cache.max_file_bytes == 0) invalid_cache_limit
    >> reject_if (site.redirect_https && not site.listen.http) https_redirect_without_http

-- What `validate_site` checks after the domains.
unfoldable pub check_rest : (Text → Bool) → SiteConfig → Checked SiteError
unfolding check_access check_routes check_redirects check_target check_options
check_rest is_file site =
    check_access site.access
    >> check_routes is_file site.internal_routes []
    >> check_redirects site.redirects []
    >> check_target is_file site
    >> check_options site

unfoldable pub validate_site : (Text → Bool) → SiteConfig → ClaimMap → Result SiteError ClaimMap
unfolding check_modes claim_domains claim_domain check_rest
validate_site is_file site m =
    check_modes site
    >> (claim_domains site site.domains m >>= λ m'. check_rest is_file site >> ok m')

-- The loop of `filter_valid_sites`, with the domains claimed so far.
unfoldable pub filter_from : (Text → Bool) → List SiteConfig → ClaimMap → List SiteConfig
filter_from is_file [] m = []
filter_from is_file (site ∷ rest) m =
    let skipped = filter_from is_file rest m in
    if not site.enabled then skipped else elim (validate_site is_file site m) [
      | ok m' ↦ site ∷ filter_from is_file rest m'
      | err e ↦ skipped
    ]

unfoldable pub filter_valid_sites : (Text → Bool) → List SiteConfig → List SiteConfig
unfolding filter_from validate_site
filter_valid_sites is_file sites = filter_from is_file sites []
