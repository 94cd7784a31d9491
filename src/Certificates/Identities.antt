-- ===== src/Certificates/Identities.antt =====
-- src/ssl.rs: `certificate_identities`, the names of a certificate, and which domains they cover.
use mathlib.Core.Path.{subst}
use konnector.Prelude.{
  ◌≡◌, ◌⊎◌, refl, sym, ap, ◌∙◌, Bool, true, false, Option, none, some, List, [], ◌∷◌, map, arith,
  Text, str_eq, to_ascii_lowercase, Option-cases, Bool-cases, inl, inr,
}
use konnector.Prelude.StringLaws.{str_eq_refl, str_eq-eq}
use konnector.Prelude.Sorting.{sorted_set, mem, mem-sorted_set, any-mem, mem-map, mem-map-mem}
use konnector.Domains.Matching.{Names}
use konnector.Validation.Upstream.{is_empty_list}
use konnector.Certificates.Names.{normalized}
use konnector.Certificates.Coverage.{
  identity_matches, domain_covered_by_cert, identity_matches_iff, mem-any,
}

-- A certificate: `expired` has no value if the times cannot be compared.
pub record X509 : Type 0 where
  pub common_name : Option Text
  pub dns_names : List Text
  pub expired : Option Bool

common_names : Option Text → List Text
common_names none = []
common_names (some name) = name ∷ []

abbrev append_names : List Text → List Text → List Text
append_names [] ys = ys
append_names (x ∷ xs) ys = x ∷ append_names xs ys

unfoldable pub identities_of : X509 → List Text
unfolding sorted_set common_names to_ascii_lowercase
identities_of cert =
    sorted_set
      (map to_ascii_lowercase (append_names (common_names cert.common_name) cert.dns_names))

-- A name that the certificate has.
abbrev pub HasName : X509 → Text → Type 0
HasName cert name = (cert.common_name ≡ some name) ⊎ (mem name cert.dns_names ≡ true)

-- A name of the certificate covers the domain: it is the domain, or a wildcard one label above it.
abbrev pub Covers : X509 → Text → Type 0
Covers cert domain =
    (name : Text) × HasName cert name
    × Names (normalized (to_ascii_lowercase name)) (normalized domain)

first_of : (xs : List Text) → is_empty_list xs ≡ false → (x : Text) × (mem x xs ≡ true)
first_of [] h = cc
first_of (x ∷ xs) h = (x, ground (arith, str_eq_refl x))

mem-not_empty : (x : Text) (xs : List Text) → mem x xs ≡ true → is_empty_list xs ≡ false
mem-not_empty x [] h = cc
mem-not_empty x (y ∷ xs) h = refl

mem-names :
    (cert : X509) (name : Text)
    → mem name (append_names (common_names cert.common_name) cert.dns_names) ≡ true
    → HasName cert name
unfolding common_names
mem-names cert name h = elim (Option-cases cert.common_name) [
  | inl none_so ↦ inr (ground (arith, none_so))
  | inr (common, e) ↦ elim (Bool-cases (str_eq name common)) [
    | inl same ↦ inl (e ∙ ap some (sym (str_eq-eq name common same)))
    | inr other ↦ inr (ground (arith, e, other))
  ]
]

names-mem :
    (cert : X509) (name : Text)
    → HasName cert name
    → mem name (append_names (common_names cert.common_name) cert.dns_names) ≡ true
unfolding common_names
names-mem cert name (inl e) = rw e (ground (arith, str_eq_refl name))
names-mem cert name (inr m) = elim (Option-cases cert.common_name) [
  | inl none_so ↦ rw none_so m
  | inr (common, e) ↦ rw e (ground (arith, m))
]

identities_of-HasName :
    (cert : X509) (identity : Text)
    → mem identity (identities_of cert) ≡ true
    → (name : Text) × HasName cert name × (identity ≡ to_ascii_lowercase name)
unfolding identities_of
identities_of-HasName cert identity h =
    let names = append_names (common_names cert.common_name) cert.dns_names in
    let (name, there, e) =
      mem-map to_ascii_lowercase identity names
        (sym (mem-sorted_set identity (map to_ascii_lowercase names)) ∙ h) in
    (name, mem-names cert name there, e)

pub HasName-identities_of :
    (cert : X509) (name : Text)
    → HasName cert name
    → mem (to_ascii_lowercase name) (identities_of cert) ≡ true
unfolding identities_of
HasName-identities_of cert name h =
    let names = append_names (common_names cert.common_name) cert.dns_names in
    mem-sorted_set (to_ascii_lowercase name) (map to_ascii_lowercase names)
    ∙ mem-map-mem to_ascii_lowercase name names (names-mem cert name h)

pub covered-Covers :
    (cert : X509) (domain : Text)
    → domain_covered_by_cert domain (identities_of cert) ≡ true
    → Covers cert domain
unfolding domain_covered_by_cert
covered-Covers cert domain h =
    let (identity, there, matched) =
      any-mem (λ i. identity_matches i (normalized domain)) (identities_of cert) h in
    let (name, has, e) = identities_of-HasName cert identity there in
    (
      name,
      has,
      subst (λ i. Names (normalized i) (normalized domain)) e
          ((identity_matches_iff identity (normalized domain)).0 matched),
    )

pub Covers-covered :
    (cert : X509) (domain : Text)
    → Covers cert domain
    → domain_covered_by_cert domain (identities_of cert) ≡ true
unfolding domain_covered_by_cert
Covers-covered cert domain (name, has, names) =
    mem-any (λ i. identity_matches i (normalized domain)) (to_ascii_lowercase name)
      (identities_of cert)
      ((identity_matches_iff (to_ascii_lowercase name) (normalized domain)).1 names)
      (HasName-identities_of cert name has)

pub some_identity :
    (cert : X509) → is_empty_list (identities_of cert) ≡ false → (name : Text) × HasName cert name
some_identity cert h =
    let (first, there) = first_of (identities_of cert) h in
    let (name, has, e) = identities_of-HasName cert first there in (name, has)

pub named_identities :
    (cert : X509) (name : Text) → HasName cert name → is_empty_list (identities_of cert) ≡ false
named_identities cert name has =
    mem-not_empty (to_ascii_lowercase name) (identities_of cert)
      (HasName-identities_of cert name has)
