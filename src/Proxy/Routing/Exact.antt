-- ===== src/Proxy/Routing/Exact.antt =====
-- At most one site of the table matches an exact host name.
use konnector.Prelude.{
  ℕ, zero, suc, ◌≡◌, refl, ap, Bool, true, false, ◌&&◌, List, [], ◌∷◌, ◌++◌, Option, some, arith,
  Text, codes, str_eq, starts_with, to_ascii_lowercase, to_lower, any, All, get_elem?, inl, inr,
}
use konnector.Prelude.StringLaws.{str_eq_refl, starts_with-append}
use konnector.Configs.Types.{SiteConfig, ProxyTarget, LogLevel}
use konnector.Domains.Hosts.{normalize_host, is_wildcard}
use konnector.Domains.Matching.{same, wildcard, canonical, host_matches_iff}
use konnector.Domains.Sites.{domain_matches, site_matches}
use konnector.Domains.Claims.{wants}
use konnector.Validation.Site.{filter_valid_sites}
use konnector.Validation.Exclusive.{answers, IsDisjoint, Exclusive, filter_valid_sites-Exclusive}
use konnector.Proxy.Runtime.{SiteRuntime}
use konnector.Proxy.Routing.{site_runtime, root_runtime, build_proxy_routing}
use konnector.Proxy.Routing.Shape.{build_proxy_routing-sites}

to_lower_star : (c : ℕ) → to_lower c ≡ b'*' → c ≡ b'*'
unfolding to_lower
to_lower_star c h = ground arith

to_lower_dot : (c : ℕ) → to_lower c ≡ b'.' → c ≡ b'.'
unfolding to_lower
to_lower_dot c h = ground arith

-- A name that is a wildcard pattern in lower case is one as it stands.
star_of_lower :
    (n suffix : Text)
    → to_ascii_lowercase n ≡ codes "*." ++ suffix
    → starts_with n (codes "*.") ≡ true
unfolding to_ascii_lowercase
star_of_lower [] suffix h = cc
star_of_lower (c ∷ []) suffix h = cc
star_of_lower (c ∷ d ∷ n) suffix h =
    let star : c ≡ b'*' = to_lower_star c (cc) in
    let dot : d ≡ b'.' = to_lower_dot d (cc) in rw (star, dot) (starts_with-append (codes "*.") n)

exact_names :
    (host d : Text)
    → domain_matches host true d ≡ true
    → str_eq (canonical d) (canonical host) ≡ true
unfolding domain_matches is_wildcard
exact_names host d h =
    let (_, _, names) = (host_matches_iff d host).0 (ground arith) in
    elim names [
      | same e ↦ rw e (str_eq_refl (canonical host))
      | wildcard suffix e named below ↦
          let star = star_of_lower (normalize_host d) suffix e in absurd (ground arith)
    ]

any_exact :
    (host : Text) (ds : List Text)
    → any (domain_matches host true) ds ≡ true
    → any (λ d. str_eq (canonical d) (canonical host)) ds ≡ true
any_exact host [] h = h
any_exact host (d ∷ ds) h = ground (arith, exact_names host d, any_exact host ds)

exact-answers :
    (default : LogLevel) (c : SiteConfig) (host : Text) (https websocket : Bool)
    → site_matches (site_runtime default c) host https websocket true ≡ true
    → answers c (canonical host) https websocket ≡ true
unfolding site_matches site_runtime wants
exact-answers default c host https websocket h = ground (arith, any_exact host c.domains)

not-root_matches :
    (default : LogLevel) (target : ProxyTarget) (host : Text) (https websocket exact : Bool)
    → site_matches (root_runtime default target) host https websocket exact ≡ false
unfolding site_matches root_runtime
not-root_matches default target host https websocket exact = ground arith

apart_at :
    (a b : SiteConfig) (ss : List SiteConfig) (j : ℕ)
    → All (IsDisjoint a) ss
    → get_elem? ss j ≡ some b
    → IsDisjoint a b
apart_at a b [] j h e = cc
apart_at a b (s ∷ ss) zero (d, h) e =
    λ key https websocket. let clash = d key https websocket in ground (arith, clash)
apart_at a b (s ∷ ss) (suc j) (d, h) e = apart_at a b ss j h e

clash : (a b : Bool) → (a && b) ≡ false → a ≡ true → b ≡ true → ⊥
clash a b e h k = ground arith

index_unique :
    (ss : List SiteConfig) (i j : ℕ) (a b : SiteConfig) (key : Text) (https websocket : Bool)
    → Exclusive ss
    → get_elem? ss i ≡ some a
    → get_elem? ss j ≡ some b
    → answers a key https websocket ≡ true
    → answers b key https websocket ≡ true
    → i ≡ j
index_unique [] i j a b key https websocket x p q h k = cc
index_unique (s ∷ ss) zero zero a b key https websocket x p q h k = refl
index_unique (s ∷ ss) zero (suc j) a b key https websocket (d, x) p q h k =
    let apart = apart_at s b ss j d q key https websocket in
    absurd (
      clash (answers s key https websocket) (answers b key https websocket) apart
        (let e : s ≡ a = cc in rw e h) k)
index_unique (s ∷ ss) (suc i) zero a b key https websocket (d, x) p q h k =
    let apart = apart_at s a ss i d p key https websocket in
    absurd (
      clash (answers s key https websocket) (answers a key https websocket) apart
        (let e : s ≡ b = cc in rw e k) h)
index_unique (s ∷ ss) (suc i) (suc j) a b key https websocket (d, x) p q h k =
    ap suc (index_unique ss i j a b key https websocket x p q h k)

module _ (is_file : Text → Bool) (configs : List SiteConfig) (root : Option ProxyTarget)
    (default : LogLevel) where
  abbrev pub table : List SiteRuntime
  table = (build_proxy_routing (filter_valid_sites is_file configs) root default).sites

  -- A site of the table with an exact match is an accepted site that answers for the host.
  table-answers :
      (host : Text) (https websocket : Bool) (i : ℕ) {site : SiteRuntime}
      → get_elem? table i ≡ some site
      → site_matches site host https websocket true ≡ true
      → (c : SiteConfig) × (get_elem? (filter_valid_sites is_file configs) i ≡ some c)
        × (answers c (canonical host) https websocket ≡ true)
  table-answers host https websocket i at h =
      elim (build_proxy_routing-sites (filter_valid_sites is_file configs) root default i at) [
        | inl (c, listed, e) ↦ (c, listed, exact-answers default c host https websocket (rw e h))
        | inr (target, given, last, e) ↦
            let never = not-root_matches default target host https websocket true in absurd (cc)
      ]

  -- Whatever the configuration, at most one site of the routing table matches a request by an exact
  -- host name.
  pub exact_match_unique :
      (host : Text) (https websocket : Bool) (i j : ℕ) {a b : SiteRuntime}
      → get_elem? table i ≡ some a
      → get_elem? table j ≡ some b
      → site_matches a host https websocket true ≡ true
      → site_matches b host https websocket true ≡ true
      → i ≡ j
  exact_match_unique host https websocket i j at_i at_j h k =
      let (c, listed, answer) = table-answers host https websocket i at_i h in
      let (d, listed', answer') = table-answers host https websocket j at_j k in
      index_unique (filter_valid_sites is_file configs) i j c d (canonical host) https websocket
        (filter_valid_sites-Exclusive is_file configs) listed listed' answer answer'
