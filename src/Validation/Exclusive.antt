-- ===== src/Validation/Exclusive.antt =====
-- No two accepted sites answer for one host name on one listener and one kind of traffic.
use konnector.Prelude.{
  ◌≡◌, refl, Bool, true, false, ◌||◌, ◌&&◌, List, [], ◌∷◌, if◌then◌else◌, arith, ok, ◌>>=◌, ◌>>◌,
  >>=-eq-ok, Text, str_eq, any, All, Bool-cases, Result-cases, inl, inr,
}
use konnector.Prelude.StringLaws.{str_eq-eq, str_eq_iff}
use konnector.Configs.Types.{SiteConfig}
use konnector.Domains.Matching.{canonical}
use konnector.Domains.Claims.{DomainClaim, claim, taken, wants, claim-taken}
use konnector.Validation.Site.{
  ClaimMap, claim_of, put_claim, claim_domain, claim_domains, validate_site, filter_from,
  filter_valid_sites, check_modes, check_rest,
}

names_key : Text → Text → Bool
names_key key d = str_eq (canonical d) key

-- Whether a site answers for a key (a canonical host name or pattern) on one combination.
abbrev pub answers : SiteConfig → Text → Bool → Bool → Bool
answers site key https websocket =
    any (λ d. str_eq (canonical d) key) site.domains
    && wants site.listen site.traffic https websocket

abbrev pub IsDisjoint : SiteConfig → SiteConfig → Type 0
IsDisjoint s t =
    (key : Text) (https websocket : Bool)
    → (answers s key https websocket && answers t key https websocket) ≡ false

abbrev pub Exclusive : List SiteConfig → Type 0
Exclusive [] = Unit
Exclusive (s ∷ ss) = All (IsDisjoint s) ss × Exclusive ss

claim_of-put_claim :
    (key k : Text) (c : DomainClaim) (m : ClaimMap)
    → claim_of key (put_claim k c m) ≡ (if str_eq k key then c else claim_of key m)
unfolding claim_of put_claim
claim_of-put_claim key k c [] = refl
claim_of-put_claim key k c ((j, d) ∷ m) =
    ground (arith, claim_of-put_claim key k c m, str_eq_iff j k, str_eq_iff j key, str_eq_iff k key)

claim_domain-ok :
    (site : SiteConfig) (d : Text) (m : ClaimMap) {m' : ClaimMap}
    → claim_domain site d m ≡ ok m'
    → (c : DomainClaim) × (claim (claim_of (canonical d) m) site.listen site.traffic ≡ ok c)
      × (m' ≡ put_claim (canonical d) c m)
unfolding claim_domain
claim_domain-ok site d m {m'} h =
    elim (Result-cases (claim (claim_of (canonical d) m) site.listen site.traffic)) [
      | inl (c, e) ↦ (c, e, ground arith)
      | inr (e, failed) ↦ absurd (ground arith)
    ]

-- What a site adds to the map for one key and combination.
abbrev adds : SiteConfig → List Text → Text → Bool → Bool → Bool
adds site ds key https websocket =
    any (λ d. str_eq (canonical d) key) ds && wants site.listen site.traffic https websocket

abbrev held : ClaimMap → Text → Bool → Bool → Bool
held m key https websocket = taken (claim_of key m) https websocket

-- One domain of a site: what it claims is new, and is in the map afterwards.
claim_domain-held :
    (site : SiteConfig) (d : Text) (m : ClaimMap) (key : Text) (https websocket : Bool)
    {m' : ClaimMap}
    → claim_domain site d m ≡ ok m'
    → (held m' key https websocket
        ≡ (held m key https websocket || adds site (d ∷ []) key https websocket))
      × ((held m key https websocket && adds site (d ∷ []) key https websocket) ≡ false)
claim_domain-held site d m key https websocket h =
    let (c, claimed, put) = claim_domain-ok site d m h in
    let (now, new) =
      claim-taken (claim_of (canonical d) m) site.listen site.traffic https websocket claimed in
    elim (Bool-cases (str_eq (canonical d) key)) [
      | inl same ↦
          let e = str_eq-eq (canonical d) key same in
          rw (put, claim_of-put_claim key (canonical d) c m, same)
            (rw (← e) (ground (arith, now, new)))
      | inr other ↦ rw (put, claim_of-put_claim key (canonical d) c m, other) (ground arith)
    ]

claim_domains-held :
    (site : SiteConfig) (ds : List Text) (m : ClaimMap) (key : Text) (https websocket : Bool)
    {m' : ClaimMap}
    → claim_domains site ds m ≡ ok m'
    → (held m' key https websocket
        ≡ (held m key https websocket || adds site ds key https websocket))
      × ((held m key https websocket && adds site ds key https websocket) ≡ false)
unfolding claim_domains
claim_domains-held site [] m key https websocket h = ground arith
claim_domains-held site (d ∷ ds) m key https websocket h =
    let (n, first, rest) = >>=-eq-ok (claim_domain site d m) (claim_domains site ds) h in
    let (now, new) = claim_domain-held site d m key https websocket first in
    let (now', new') = claim_domains-held site ds n key https websocket rest in
    ground (arith, now, new, now', new')

-- One round of the filter: the site is accepted with a larger map, or passed over.
pub data FilterStep (is_file : Text → Bool) (site : SiteConfig) (m : ClaimMap)
    (rest : List SiteConfig) : Type 0 where
  accept :
      (m' : ClaimMap)
      → site.enabled ≡ true
      → validate_site is_file site m ≡ ok m'
      → filter_from is_file (site ∷ rest) m ≡ site ∷ filter_from is_file rest m'
      → FilterStep is_file site m rest
  skip :
      filter_from is_file (site ∷ rest) m ≡ filter_from is_file rest m
      → FilterStep is_file site m rest

pub filter_step :
    (is_file : Text → Bool) (site : SiteConfig) (m : ClaimMap) (rest : List SiteConfig)
    → FilterStep is_file site m rest
unfolding filter_from
filter_step is_file site m rest = elim (Bool-cases site.enabled) [
  | inl on ↦ elim (Result-cases (validate_site is_file site m)) [
    | inl (m', accepted) ↦ accept m' on accepted (ground arith)
    | inr (e, refused) ↦ skip (ground arith)
  ]
  | inr disabled ↦ skip (ground arith)
]

pub validate_site-ok :
    (is_file : Text → Bool) (site : SiteConfig) (m : ClaimMap) {m' : ClaimMap}
    → validate_site is_file site m ≡ ok m'
    → (check_modes site ≡ ok tt)
      × (claim_domains site site.domains m ≡ ok m')
      × (check_rest is_file site ≡ ok tt)
unfolding validate_site
validate_site-ok is_file site m h =
    let (_, modes, more) =
      >>=-eq-ok (check_modes site)
        (λ _. claim_domains site site.domains m >>= λ n. check_rest is_file site >> ok n) h in
    let (n, claimed, checked) =
      >>=-eq-ok (claim_domains site site.domains m) (λ n. check_rest is_file site >> ok n) more in
    let (_, rest, same) = >>=-eq-ok (check_rest is_file site) (λ _. ok n) checked in
    (modes, ground (arith, claimed, same), rest)

-- Every combination that is held in the map is one that the site does not answer.
abbrev Avoids : ClaimMap → SiteConfig → Type 0
Avoids m t =
    (key : Text) (https websocket : Bool)
    → (held m key https websocket && answers t key https websocket) ≡ false

module _ (is_file : Text → Bool) where
  -- What an accepted site answers is new, and held afterwards beside what was held.
  accepted-held :
      (site : SiteConfig) (m : ClaimMap) (key : Text) (https websocket : Bool) {m' : ClaimMap}
      → validate_site is_file site m ≡ ok m'
      → (held m' key https websocket
          ≡ (held m key https websocket || answers site key https websocket))
        × ((held m key https websocket && answers site key https websocket) ≡ false)
  accepted-held site m key https websocket h =
      claim_domains-held site site.domains m key https websocket
        (validate_site-ok is_file site m h).1

  Avoids-earlier :
      (site : SiteConfig) (m : ClaimMap) {m' : ClaimMap}
      → validate_site is_file site m ≡ ok m'
      → (ts : List SiteConfig) → All (Avoids m') ts
      → All (Avoids m) ts
  Avoids-earlier site m h [] a = tt
  Avoids-earlier site m h (t ∷ ts) (avoids, a) = (
    λ key https websocket.
        let (now, new) = accepted-held site m key https websocket h in
        let later = avoids key https websocket in ground (arith, now, later),
    Avoids-earlier site m h ts a,
  )

  Avoids-IsDisjoint :
      (site : SiteConfig) (m : ClaimMap) {m' : ClaimMap}
      → validate_site is_file site m ≡ ok m'
      → (ts : List SiteConfig) → All (Avoids m') ts
      → All (IsDisjoint site) ts
  Avoids-IsDisjoint site m h [] a = tt
  Avoids-IsDisjoint site m h (t ∷ ts) (avoids, a) = (
    λ key https websocket.
        let (now, new) = accepted-held site m key https websocket h in
        let later = avoids key https websocket in ground (arith, now, later),
    Avoids-IsDisjoint site m h ts a,
  )

  filter_from-Avoids :
      (sites : List SiteConfig) (m : ClaimMap) → All (Avoids m) (filter_from is_file sites m)
  unfolding filter_from
  filter_from-Avoids [] m = tt
  filter_from-Avoids (site ∷ rest) m = elim (filter_step is_file site m rest) [
    | accept m' on accepted e ↦ rw e (
      λ key https websocket. (accepted-held site m key https websocket accepted).1,
      Avoids-earlier site m accepted _ (filter_from-Avoids rest m'),
    )
    | skip e ↦ rw e (filter_from-Avoids rest m)
  ]

  filter_from-Exclusive :
      (sites : List SiteConfig) (m : ClaimMap) → Exclusive (filter_from is_file sites m)
  unfolding filter_from
  filter_from-Exclusive [] m = tt
  filter_from-Exclusive (site ∷ rest) m = elim (filter_step is_file site m rest) [
    | accept m' on accepted e ↦ rw e (
      Avoids-IsDisjoint site m accepted _ (filter_from-Avoids rest m'),
      filter_from-Exclusive rest m',
    )
    | skip e ↦ rw e (filter_from-Exclusive rest m)
  ]

-- Among the sites that pass the filter, whatever the configuration, no two answer for one canonical
-- host name or pattern on one listener and for one kind of traffic.
pub filter_valid_sites-Exclusive :
    (is_file : Text → Bool) (sites : List SiteConfig) → Exclusive (filter_valid_sites is_file sites)
unfolding filter_valid_sites
filter_valid_sites-Exclusive is_file sites = filter_from-Exclusive is_file sites []
