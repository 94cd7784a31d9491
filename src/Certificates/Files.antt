-- ===== src/Certificates/Files.antt =====
-- src/ssl.rs: `certificate_identities`, `validate_key_pair` and `validate_certificate_files`. What
-- OpenSSL reads in the two files is a record.
use konnector.Prelude.{
  ◌≡◌, ◌≢◌, ◌↔◌, refl, Bool, true, false, not, none, some, List, [], ◌∷◌, arith, if◌then◌else◌,
  Result, Checked, ok, err, ◌>>=◌, ◌>>◌, >>=-eq-ok, Text, All, Result-cases, Option-cases, inl, inr,
}
use konnector.Validation.Upstream.{is_empty_list}
use konnector.Certificates.Identities.{
  X509, identities_of, HasName, Covers, covered-Covers, Covers-covered, some_identity,
  named_identities,
}
use konnector.Certificates.Coverage.{domain_covered_by_cert}

-- The certificate, and whether the key, once it is read, belongs to it; errors are texts.
pub record TlsFiles : Type 0 where
  pub certificate : Result Text X509
  pub key_matches : Result Text Bool

pub data CertificateError : Type 0 where
  unreadable : Text → CertificateError
  mismatch no_identities expired : CertificateError
  not_covered : Text → CertificateError

unfoldable pub certificate_identities : TlsFiles → Result CertificateError (List Text)
unfolding identities_of
certificate_identities files = elim files.certificate [
  | err e ↦ err (unreadable e)
  | ok cert ↦ ok (identities_of cert)
]

-- The certificate was read before.
unfoldable pub validate_key_pair : TlsFiles → Checked CertificateError
validate_key_pair files = elim files.key_matches [
  | err e ↦ err (unreadable e)
  | ok true ↦ ok tt
  | ok false ↦ err mismatch
]

-- certificate_expiry_error
unfoldable pub is_expired : TlsFiles → Bool
is_expired files = elim files.certificate [
  | err e ↦ false
  | ok cert ↦ elim cert.expired [ none ↦ false | some late ↦ late ]
]

unfoldable pub check_domains : List Text → List Text → Checked CertificateError
unfolding domain_covered_by_cert
check_domains identities [] = ok tt
check_domains identities (domain ∷ domains) =
    let rest = check_domains identities domains in
    if not (domain_covered_by_cert domain identities) then err (not_covered domain) else rest

abbrev check_certificate : TlsFiles → List Text → List Text → Checked CertificateError
check_certificate files domains identities =
    if is_empty_list identities
    then err no_identities
    else if is_expired files
    then err expired
    else check_domains identities domains

unfoldable pub validate_certificate_files : TlsFiles → List Text → Checked CertificateError
unfolding certificate_identities validate_key_pair is_expired check_domains
validate_certificate_files files domains = certificate_identities files >>= λ identities.
    validate_key_pair files >> check_certificate files domains identities

-- The certificate can be read and has a name, its key belongs to it, it is not known to have expired,
-- and for every domain it has a name that covers it.
pub record IsServable (files : TlsFiles) (domains : List Text) : Type 0 where
  pub cert : X509
  pub read : files.certificate ≡ ok cert
  pub named : (name : Text) × HasName cert name
  pub paired : files.key_matches ≡ ok true
  pub fresh : cert.expired ≢ some true
  pub covers : All (Covers cert) domains

check_domains-Covers :
    (cert : X509) (domains : List Text)
    → check_domains (identities_of cert) domains ≡ ok tt
    → All (Covers cert) domains
unfolding check_domains
check_domains-Covers cert [] h = tt
check_domains-Covers cert (d ∷ domains) h =
    (covered-Covers cert d (ground arith), check_domains-Covers cert domains (ground arith))

Covers-check_domains :
    (cert : X509) (domains : List Text)
    → All (Covers cert) domains
    → check_domains (identities_of cert) domains ≡ ok tt
unfolding check_domains
Covers-check_domains cert [] h = refl
Covers-check_domains cert (d ∷ domains) (here, later) =
    let covered = Covers-covered cert d here in
    let rest = Covers-check_domains cert domains later in ground (arith, covered, rest)

-- A certificate whose times cannot be compared is taken to be fresh.
is_expired_iff :
    (files : TlsFiles) (cert : X509)
    → files.certificate ≡ ok cert
    → (is_expired files ≡ false) ↔ (cert.expired ≢ some true)
unfolding is_expired
is_expired_iff files cert read = elim (Option-cases cert.expired) [
  | inl e ↦ (λ h k. cc, λ h. ground (arith, read, e))
  | inr (true, e) ↦ (λ h. absurd (ground (arith, read, e)), λ h. absurd (h e))
  | inr (false, e) ↦ (λ h k. cc, λ h. ground (arith, read, e))
]

validate_key_pair-ok :
    (files : TlsFiles) → validate_key_pair files ≡ ok tt → files.key_matches ≡ ok true
unfolding validate_key_pair
validate_key_pair-ok files h = elim (Result-cases files.key_matches) [
  | inl (true, e) ↦ e
  | inl (false, e) ↦ absurd (ground arith)
  | inr (e, failed) ↦ absurd (ground arith)
]

validate-IsServable :
    (files : TlsFiles) (domains : List Text)
    → validate_certificate_files files domains ≡ ok tt
    → IsServable files domains
unfolding validate_certificate_files certificate_identities
validate-IsServable files domains h = elim (Result-cases files.certificate) [
  | inr (e, failed) ↦ absurd (ground arith)
  | inl (cert, e) ↦
      let chained : (validate_key_pair files
            >> check_certificate files domains (identities_of cert))
          ≡ ok tt =
        ground arith in
      let (_, pair, checks) =
        >>=-eq-ok (validate_key_pair files)
          (λ passed. check_certificate files domains (identities_of cert)) chained in
      record {
        cert = cert;
        read = e;
        named = some_identity cert (ground (arith, checks));
        paired = validate_key_pair-ok files (ground (arith, pair));
        fresh = (is_expired_iff files cert e).0 (ground (arith, checks));
        covers = check_domains-Covers cert domains (ground (arith, checks));
      }
]

-- The files of a certificate are accepted for the domains exactly when the certificate can be read,
-- has a name, is not known to have expired and has the key beside it, and every domain is covered by
-- its common name or one of its DNS names, in normal form: the name itself, or `*.` and a suffix one
-- label above the domain.
pub validate_certificate_files_iff :
    (files : TlsFiles) (domains : List Text)
    → (validate_certificate_files files domains ≡ ok tt) ↔ IsServable files domains
unfolding validate_certificate_files certificate_identities validate_key_pair
validate_certificate_files_iff files domains = (
  validate-IsServable files domains,
  λ s.
      let covered = Covers-check_domains s.cert domains s.covers in
      let named = named_identities s.cert s.named.0 s.named.1 in
      let fresh = (is_expired_iff files s.cert s.read).1 s.fresh in
      ground (arith, s.read, s.paired, named, fresh, covered),
)
