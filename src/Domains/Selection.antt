-- ===== src/Domains/Selection.antt =====
-- The site that `site_for` chooses.
use konnector.Prelude.{
  ℕ, ◌≡◌, Bool, true, false, none, some, List, [], ◌∷◌, arith, Text, any, position, get_elem?, take,
  All, position-some, position-none, Option-cases, ◌⊎◌, inl, inr,
}
use konnector.Session.{Session, session_is_https, is_upgrade_request}
use konnector.Proxy.Runtime.{SiteRuntime}
use konnector.Domains.Sites.{request_host, domain_matches, site_matches, choose_site, site_for}

-- A match that ignores wildcards is a match.
any-domain_matches :
    (host : Text) (ds : List Text)
    → any (domain_matches host true) ds ≡ true
    → any (domain_matches host false) ds ≡ true
unfolding domain_matches
any-domain_matches host [] h = h
any-domain_matches host (d ∷ ds) h = ground (arith, any-domain_matches host ds)

site_matches-weaken :
    (site : SiteRuntime) (host : Text) (https websocket : Bool)
    → site_matches site host https websocket true ≡ true
    → site_matches site host https websocket false ≡ true
unfolding site_matches
site_matches-weaken site host https websocket h =
    ground (arith, any-domain_matches host site.domains)

-- What a chosen index promises: the site is there and matches; sites before it with the same
-- strictness do not; and a site with an exact match is passed over only for an earlier exact one.
pub record IsChosen (host : Text) (https websocket : Bool) (sites : List SiteRuntime) (i : ℕ)
    : Type 0 where
  pub chosen : SiteRuntime
  pub at : get_elem? sites i ≡ some chosen
  pub matching : site_matches chosen host https websocket false ≡ true
  pub first :
      ((site_matches chosen host https websocket true ≡ true)
        × All (λ s. site_matches s host https websocket true ≡ false) (take i sites))
      ⊎ (All (λ s. site_matches s host https websocket true ≡ false) sites
          × All (λ s. site_matches s host https websocket false ≡ false) (take i sites))

module _ (host : Text) (https websocket : Bool) (sites : List SiteRuntime) where
  abbrev exactly : SiteRuntime → Bool
  exactly site = site_matches site host https websocket true

  abbrev loosely : SiteRuntime → Bool
  loosely site = site_matches site host https websocket false

  choose_site-IsChosen :
      (i : ℕ)
      → choose_site host https websocket sites ≡ some i
      → IsChosen host https websocket sites i
  unfolding choose_site
  choose_site-IsChosen i h = elim (Option-cases (position exactly sites)) [
    | inl missed ↦
        let (site, at, passes, before) = position-some loosely sites i (ground arith) in
        record {
          chosen = site;
          at = at;
          matching = passes;
          first = inr (position-none exactly sites missed, before);
        }
    | inr (j, found) ↦
        let (site, at, passes, before) = position-some exactly sites i (ground arith) in
        record {
          chosen = site;
          at = at;
          matching = site_matches-weaken site host https websocket passes;
          first = inl (passes, before);
        }
  ]

  choose_site-none :
      choose_site host https websocket sites ≡ none
      → All (λ s. site_matches s host https websocket false ≡ false) sites
  unfolding choose_site
  choose_site-none h = elim (Option-cases (position exactly sites)) [
    | inl missed ↦ position-none loosely sites (ground arith)
    | inr (j, found) ↦ absurd (ground arith)
  ]

-- A request goes to the first site whose listener, traffic and domains fit it, and a site that
-- names the host without a wildcard comes before every site that only matches by one.
pub site_for-IsChosen :
    (s : Session) (sites : List SiteRuntime) (i : ℕ)
    → site_for s sites ≡ some i
    → (host : Text) × (request_host s ≡ some host)
      × IsChosen host (session_is_https s) (is_upgrade_request s) sites i
unfolding site_for
site_for-IsChosen s sites i h = elim (Option-cases (request_host s)) [
  | inl missing ↦ absurd (ground arith)
  | inr (host, known) ↦ (
    host,
    known,
    choose_site-IsChosen host (session_is_https s) (is_upgrade_request s) sites i (ground arith),
  )
]

-- A request with a host goes to no site only if no site fits it.
pub site_for-none :
    (s : Session) (sites : List SiteRuntime) (host : Text)
    → request_host s ≡ some host
    → site_for s sites ≡ none
    → All
        (λ site. site_matches site host (session_is_https s) (is_upgrade_request s) false ≡ false)
        sites
unfolding site_for
site_for-none s sites host known h =
    choose_site-none host (session_is_https s) (is_upgrade_request s) sites (ground arith)
