-- ===== src/Domains/Matching.antt =====
-- `host_matches` decides an independent description: equal names, or one label below a wildcard.
use konnector.Prelude.{
  ◌≡◌, ◌≢◌, refl, inl, inr, ◌↔◌, true, false, some, [], ◌∷◌, ◌++◌, arith, Text, codes, str_eq,
  strip_prefix, contains_char, to_ascii_lowercase, length, take, Bool-cases, Option-cases, ◌-◌,
}
use konnector.Prelude.StringLaws.{
  str_eq_refl, str_eq-eq, strip_prefix-append, strip_prefix-eq, ends_with-append, ends_with-eq,
  take-append,
}
use konnector.Domains.Hosts.{normalize_host, one_label_below, lowered_matches, host_matches}

-- `host` is `label.suffix` for one label that is not empty.
pub record OneLabel (suffix host : Text) : Type 0 where
  pub label : Text
  pub named : label ≢ []
  pub single : contains_char label b'.' ≡ false
  pub below : host ≡ label ++ b'.' ∷ suffix

pub data Names (pattern host : Text) : Type 0 where
  same : pattern ≡ host → Names pattern host
  wildcard :
      (suffix : Text)
      → pattern ≡ codes "*." ++ suffix
      → suffix ≢ []
      → OneLabel suffix host
      → Names pattern host

one_label_below_sound :
    (suffix host : Text) → one_label_below suffix host ≡ true → (suffix ≢ []) × OneLabel suffix host
unfolding one_label_below
one_label_below_sound [] host h = absurd (ground arith)
one_label_below_sound (c ∷ suffix) host h =
    let left = take (length host - length (b'.' ∷ c ∷ suffix)) host in
    (
      λ e. cc,
      record {
        label = left;
        named = λ e. ground arith;
        single = ground arith;
        below = ends_with-eq host (b'.' ∷ c ∷ suffix) (ground arith);
      },
    )

one_label_below_complete :
    (suffix host : Text) → suffix ≢ [] → OneLabel suffix host → one_label_below suffix host ≡ true
unfolding one_label_below
one_label_below_complete [] host h l = absurd (h refl)
one_label_below_complete (c ∷ suffix) host h l =
    let expected = b'.' ∷ c ∷ suffix in
    rw l.below (
      rw (take-append l.label expected, ends_with-append l.label expected, l.single) (ground arith))

lowered_matches_sound :
    (pattern host : Text) → lowered_matches pattern host ≡ true → Names pattern host
unfolding lowered_matches
lowered_matches_sound pattern host h = elim (Bool-cases (str_eq pattern host)) [
  | inl e ↦ same (str_eq-eq pattern host e)
  | inr differ ↦ elim (Option-cases (strip_prefix pattern (codes "*."))) [
    | inl e ↦ absurd (ground arith)
    | inr (suffix, e) ↦
        let (named, below) = one_label_below_sound suffix host (ground arith) in
        wildcard suffix (strip_prefix-eq pattern (codes "*.") e) named below
  ]
]

lowered_matches_complete :
    (pattern host : Text) → Names pattern host → lowered_matches pattern host ≡ true
unfolding lowered_matches
lowered_matches_complete pattern host (same e) = rw (e, str_eq_refl host)
lowered_matches_complete pattern host (wildcard suffix e named below) =
    let stripped : strip_prefix pattern (codes "*.") ≡ some suffix =
      rw e (strip_prefix-append (codes "*.") suffix) in
    ground (arith, stripped, one_label_below_complete suffix host named below)

-- The comparison alone, of names that are in normal form.
pub lowered_matches_iff :
    (pattern host : Text) → (lowered_matches pattern host ≡ true) ↔ Names pattern host
lowered_matches_iff pattern host =
    (lowered_matches_sound pattern host, lowered_matches_complete pattern host)

-- A pattern and a host as the tests compare them.
abbrev pub canonical : Text → Text
canonical name = to_ascii_lowercase (normalize_host name)

-- A host matches a pattern exactly when neither is empty once normalised, and in lower case they
-- are equal or the host is one non-empty label, without a dot, below the suffix of a `*.` pattern.
pub host_matches_iff :
    (pattern host : Text)
    → (host_matches pattern host ≡ true) ↔ (
        (normalize_host pattern ≢ [])
        × (normalize_host host ≢ [])
        × Names (canonical pattern) (canonical host))
unfolding host_matches
host_matches_iff pattern host = (
  λ h. (
    λ e. ground arith,
    λ e. ground arith,
    lowered_matches_sound (canonical pattern) (canonical host) (ground arith),
  ),
  λ (p, q, n). ground (arith, lowered_matches_complete (canonical pattern) (canonical host) n),
)
