-- ===== src/Certificates/Names.antt =====
-- src/ssl.rs: the host names of the sites that certificates are wanted for.
use konnector.Prelude.{
  Bool, true, false, not, ◌||◌, ◌&&◌, List, [], ◌∷◌, ◌++◌, if◌then◌else◌, Text, codes, str_eq,
  is_empty, trim, trim_end_matches, to_ascii_lowercase, starts_with, ends_with, contains_char, any,
  ◌==◌,
}
use konnector.Prelude.IpAddr.{is_ip_addr}
use konnector.Prelude.Sorting.{sorted_set}
use konnector.Configs.Types.{SiteConfig}
use konnector.Configs.Tls.{TlsProviderKind, cloudflare, no_provider, acme, command}
use konnector.Domains.Hosts.{is_wildcard}

-- `domain.trim().trim_end_matches('.').to_ascii_lowercase()`
unfoldable pub normalized : Text → Text
unfolding to_ascii_lowercase trim_end_matches trim
normalized domain = to_ascii_lowercase (trim_end_matches (λ c. c == b'.') (trim domain))

-- Names of the example file that comes with the program.
abbrev placeholders : List Text
placeholders =
    codes "example.com"
    ∷ codes "www.example.com"
    ∷ codes "example.org"
    ∷ codes "example.net"
    ∷ codes "www.example.org"
    ∷ codes "www.example.net"
    ∷ []

unfoldable pub is_tls_dns_name : Text → Bool
unfolding is_ip_addr str_eq contains_char starts_with ends_with to_ascii_lowercase
is_tls_dns_name domain =
    if is_empty domain || str_eq (to_ascii_lowercase domain) (codes "localhost")
    then false
    else if starts_with domain (codes "[") && ends_with domain (codes "]") || is_ip_addr domain
    then false
    else if any (str_eq domain) placeholders
    then false
    else contains_char domain b'.'

-- Whether a normalised domain is inserted.
unfoldable pub is_wanted : Bool → Text → Bool
unfolding is_wildcard is_tls_dns_name
is_wanted allow_wildcards name =
    if is_wildcard name && not allow_wildcards then false else is_tls_dns_name name

-- The loop over the domains of a site, in front of what the other sites insert.
unfoldable pub insert_domains : Bool → List Text → List Text → List Text
unfolding is_wanted normalized
insert_domains allow_wildcards [] others = others
insert_domains allow_wildcards (domain ∷ domains) others =
    let rest = insert_domains allow_wildcards domains others in
    if is_wanted allow_wildcards (normalized domain) then normalized domain ∷ rest else rest

unfoldable pub inserted : Bool → List SiteConfig → List Text
unfolding insert_domains
inserted allow_wildcards [] = []
inserted allow_wildcards (site ∷ sites) =
    let rest = inserted allow_wildcards sites in
    let more = insert_domains allow_wildcards site.domains rest in
    if not site.listen.https then rest else more

unfoldable pub proxied_tls_domains_with : List SiteConfig → Bool → List Text
unfolding inserted sorted_set
proxied_tls_domains_with sites allow_wildcards = sorted_set (inserted allow_wildcards sites)

unfoldable pub proxied_tls_domains : List SiteConfig → List Text
unfolding proxied_tls_domains_with
proxied_tls_domains sites = proxied_tls_domains_with sites false

abbrev pub is_cloudflare : TlsProviderKind → Bool
is_cloudflare cloudflare = true
is_cloudflare no_provider = false
is_cloudflare acme = false
is_cloudflare command = false

unfoldable pub certificate_domains : List SiteConfig → TlsProviderKind → List Text
unfolding proxied_tls_domains_with
certificate_domains sites kind = proxied_tls_domains_with sites (is_cloudflare kind)

-- What `cloudflare_hostnames` inserts for one normalised domain.
unfoldable pub hostnames_of : Text → List Text
unfolding is_wildcard
hostnames_of name =
    if is_wildcard name
    then name ∷ []
    else if is_empty name
    then []
    else name ∷ (codes "*." ++ name) ∷ []

abbrev pub all_hostnames : List Text → List Text
all_hostnames [] = []
all_hostnames (domain ∷ domains) = hostnames_of (normalized domain) ++ all_hostnames domains

unfoldable pub cloudflare_hostnames : List Text → List Text
unfolding hostnames_of normalized sorted_set
cloudflare_hostnames domains = sorted_set (all_hostnames domains)

-- A site names a host, in normal form, and answers it over HTTPS.
abbrev pub names_over_https : Text → SiteConfig → Bool
names_over_https name site =
    site.listen.https && any (λ domain. str_eq name (normalized domain)) site.domains
