-- ===== src/Certificates/Coverage.antt =====
-- src/ssl.rs: whether a certificate covers a domain.
use konnector.Prelude.{
  ◌≡◌, ◌≢◌, ◌↔◌, ◌-◌, refl, sym, ap, ◌∙◌, Bool, true, false, not, ◌||◌, ◌&&◌, none, some, List, [],
  ◌∷◌, ◌++◌, arith, if◌then◌else◌, Text, codes, str_eq, is_empty, strip_prefix, ends_with, take,
  length, contains_char, trim, trim_end_matches, to_ascii_lowercase, to_lower, any, ◌==◌, ℕ,
  Bool-cases, Option-cases, inl, inr,
}
use konnector.Prelude.StringLaws.{str_eq_refl, str_eq-eq, strip_prefix-eq}
use konnector.Prelude.Sorting.{mem, mem-sorted_set}
use konnector.Domains.Hosts.{lowered_matches, one_label_below}
use konnector.Domains.Matching.{Names, lowered_matches_iff}
use konnector.Certificates.Names.{normalized, cloudflare_hostnames, hostnames_of, all_hostnames}

-- The part of `identity_matches` below `*.`.
unfoldable pub below_suffix : Text → Text → Bool
unfolding ends_with contains_char
below_suffix suffix domain =
    let dotted = b'.' ∷ suffix in
    let left = take (length domain - length dotted) domain in
    if not (ends_with domain dotted)
    then false
    else not (is_empty left) && not (contains_char left b'.')

unfoldable pub identity_matches : Text → Text → Bool
unfolding normalized below_suffix str_eq strip_prefix
identity_matches text domain =
    let identity = normalized text in
    if str_eq identity domain then true else elim (strip_prefix identity (codes "*.")) [
      | none ↦ false
      | some suffix ↦ below_suffix suffix domain
    ]

unfoldable pub domain_covered_by_cert : Text → List Text → Bool
unfolding identity_matches normalized
domain_covered_by_cert domain identities =
    any (λ identity. identity_matches identity (normalized domain)) identities

trim_one : (p : ℕ → Bool) (s : Text) (b : ℕ) → trim_end_matches p s ≡ b ∷ [] → p b ≡ false
unfolding trim_end_matches
trim_one p [] b h = cc
trim_one p (c ∷ s) b h = elim (Bool-cases (p c && is_empty (trim_end_matches p s))) [
  | inl gone ↦ absurd (ground arith)
  | inr kept ↦
      let same : c ∷ trim_end_matches p s ≡ b ∷ [] = ground arith in
      let end : trim_end_matches p s ≡ [] = cc in
      let first : c ≡ b = cc in rw (← first) (ground (arith, end))
]

trim_two : (p : ℕ → Bool) (s : Text) (a b : ℕ) → trim_end_matches p s ≡ a ∷ b ∷ [] → p b ≡ false
unfolding trim_end_matches
trim_two p [] a b h = cc
trim_two p (c ∷ s) a b h = elim (Bool-cases (p c && is_empty (trim_end_matches p s))) [
  | inl gone ↦ absurd (ground arith)
  | inr kept ↦
      let same : c ∷ trim_end_matches p s ≡ a ∷ b ∷ [] = ground arith in
      let end : trim_end_matches p s ≡ b ∷ [] = cc in trim_one p s b end
]

lower_dot : (c : ℕ) → to_lower c ≡ b'.' → c ≡ b'.'
unfolding to_lower
lower_dot c h = ground arith

lower_two :
    (t : Text) (a b : ℕ)
    → to_ascii_lowercase t ≡ a ∷ b ∷ []
    → (c : ℕ) × (d : ℕ) × (t ≡ c ∷ d ∷ []) × (to_lower d ≡ b)
unfolding to_ascii_lowercase
lower_two [] a b h = cc
lower_two (c ∷ []) a b h = cc
lower_two (c ∷ d ∷ []) a b h = (c, d, refl, cc)
lower_two (c ∷ d ∷ e ∷ t) a b h = cc

-- A name in normal form does not end in a dot.
normalized_star : (text : Text) → normalized text ≢ codes "*."
unfolding normalized
normalized_star text h =
    let (c, d, e, low) = lower_two _ b'*' b'.' h in
    let dot = lower_dot d low in
    let no = trim_two (λ c. c == b'.') (trim text) c d e in absurd (ground (arith, dot, no))

suffix_of_normalized :
    (text suffix : Text) → strip_prefix (normalized text) (codes "*.") ≡ some suffix → suffix ≢ []
suffix_of_normalized text suffix h e =
    normalized_star text
      (strip_prefix-eq (normalized text) (codes "*.") h ∙ ap (λ s. codes "*." ++ s) e)

below_suffix-one_label :
    (suffix domain : Text)
    → suffix ≢ []
    → below_suffix suffix domain ≡ one_label_below suffix domain
unfolding below_suffix one_label_below
below_suffix-one_label [] domain h = absurd (h refl)
below_suffix-one_label (c ∷ suffix) domain h = refl

identity_matches-lowered :
    (text domain : Text) → identity_matches text domain ≡ lowered_matches (normalized text) domain
unfolding identity_matches lowered_matches
identity_matches-lowered text domain =
    elim (Option-cases (strip_prefix (normalized text) (codes "*."))) [
      | inl e ↦ ground (arith, e)
      | inr (suffix, e) ↦
          ground
            (arith, e, below_suffix-one_label suffix domain (suffix_of_normalized text suffix e))
    ]

-- An identity of a certificate, in its normal form, covers exactly the name that is equal to that
-- form and, where that is `*.` and a suffix, the names of one label that is not empty, a dot and the
-- suffix.
pub identity_matches_iff :
    (text domain : Text) → (identity_matches text domain ≡ true) ↔ Names (normalized text) domain
identity_matches_iff text domain =
    rw (identity_matches-lowered text domain) (lowered_matches_iff _ _)

pub mem-any :
    (p : Text → Bool) (x : Text) (xs : List Text) → p x ≡ true → mem x xs ≡ true → any p xs ≡ true
mem-any p x [] h m = cc
mem-any p x (y ∷ xs) h m = elim (Bool-cases (str_eq x y)) [
  | inl same ↦ ground (arith, ap p (str_eq-eq x y same))
  | inr other ↦ ground (arith, mem-any p x xs h (ground arith))
]

identity_of_itself : (text : Text) → identity_matches text (normalized text) ≡ true
unfolding identity_matches
identity_of_itself text = ground (arith, str_eq_refl (normalized text))

mem-append : (x : Text) (xs ys : List Text) → mem x (xs ++ ys) ≡ (mem x xs || mem x ys)
mem-append x [] ys = refl
mem-append x (y ∷ xs) ys = ground (arith, mem-append x xs ys)

hostnames_of_itself : (name : Text) → is_empty name ≡ false → mem name (hostnames_of name) ≡ true
unfolding hostnames_of
hostnames_of_itself name h = ground (arith, str_eq_refl name)

mem-all_hostnames :
    (domain : Text) (domains : List Text)
    → is_empty (normalized domain) ≡ false
    → mem domain domains ≡ true
    → mem (normalized domain) (all_hostnames domains) ≡ true
mem-all_hostnames domain [] h m = cc
mem-all_hostnames domain (d ∷ domains) h m =
    let split =
      mem-append (normalized domain) (hostnames_of (normalized d)) (all_hostnames domains) in
    elim (Bool-cases (str_eq domain d)) [
      | inl same ↦
          let here = hostnames_of_itself (normalized domain) h in
          let e : hostnames_of (normalized d) ≡ hostnames_of (normalized domain) =
            ap (λ s. hostnames_of (normalized s)) (sym (str_eq-eq domain d same)) in
          ground (arith, split, ap (mem (normalized domain)) e, here)
      | inr other ↦ ground (arith, split, mem-all_hostnames domain domains h (ground arith))
    ]

-- A certificate for the host names that are asked of Cloudflare covers every domain that it is
-- wanted for, in its normal form, also a wildcard.
pub cloudflare_hostnames-covers :
    (domain : Text) (domains : List Text)
    → is_empty (normalized domain) ≡ false
    → mem domain domains ≡ true
    → domain_covered_by_cert (normalized domain) (cloudflare_hostnames domains) ≡ true
unfolding cloudflare_hostnames domain_covered_by_cert
cloudflare_hostnames-covers domain domains h m =
    mem-any (λ i. identity_matches i (normalized (normalized domain))) (normalized domain) _
      (identity_of_itself (normalized domain))
      (mem-sorted_set (normalized domain) (all_hostnames domains)
        ∙ mem-all_hostnames domain domains h m)
