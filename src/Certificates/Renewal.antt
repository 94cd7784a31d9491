-- ===== src/Certificates/Renewal.antt =====
-- src/ssl.rs: `ensure_valid_certificate`, the certificate at startup.
use konnector.Prelude.{
  ◌≡◌, ◌≢◌, refl, ap, Bool, true, false, List, [], ◌∷◌, arith, if◌then◌else◌, Checked, ok, err,
  Text, codes, Bool-cases, Result-cases, inl, inr,
}
use konnector.Configs.Types.{SiteConfig}
use konnector.Configs.Tls.{
  HttpsConfig, TlsProviderConfig, TlsProviderKind, no_provider, acme, cloudflare, command,
}
use konnector.Validation.Upstream.{is_empty_list}
use konnector.Certificates.Names.{certificate_domains}
use konnector.Certificates.Files.{CertificateError, validate_certificate_files}
use konnector.Certificates.Provider.{
  World, TlsError, failed, invalid, resolve, refresh_certificate, as_failed,
}

abbrev pub is_acme : TlsProviderKind → Bool
is_acme acme = true
is_acme no_provider = false
is_acme cloudflare = false
is_acme command = false

abbrev pub as_invalid : Checked CertificateError → Checked TlsError
as_invalid (ok done) = ok tt
as_invalid (err e) = err (invalid e)

module _ {ℓ} {W : Type ℓ} (world : World W) where
  unfoldable pub validate : HttpsConfig → List Text → W → Checked CertificateError
  unfolding validate_certificate_files
  validate https domains w = validate_certificate_files (world.files https w) domains

  -- `prepare_for_startup`, whose decision is dropped
  prepared : W × Checked Text → W × Checked TlsError
  prepared (w, r) = (w, as_failed r)

  -- After a refresh of files that are not valid: they are checked again, or a temporary certificate
  -- is installed.
  after_refresh :
      HttpsConfig → List Text → TlsProviderConfig → W × Checked TlsError → W × Checked TlsError
  unfolding validate prepared
  after_refresh https domains provider (w, ok done) = (w, as_invalid (validate https domains w))
  after_refresh https domains provider (w, err e) =
      prepared (world.prepare_for_startup https domains provider w)

  -- Valid files are renewed if they expire soon, and kept whatever comes of that.
  renew_soon : HttpsConfig → List SiteConfig → TlsProviderConfig → W → W
  unfolding refresh_certificate
  renew_soon https sites provider w =
      let (w', r) = refresh_certificate world https sites provider w in
      if world.expires_within_30_days https w then w' else w

  unfoldable pub ensure_valid_certificate :
      HttpsConfig → List SiteConfig → TlsProviderConfig → W → W × Checked TlsError
  unfolding after_refresh renew_soon refresh_certificate validate resolve certificate_domains
      prepared
  ensure_valid_certificate https sites provider w =
      let kind = resolve provider in
      let domains = certificate_domains sites kind in
      if is_empty_list domains
      then prepared (world.prepare_for_startup https (codes "localhost" ∷ []) provider w)
      else if is_acme kind
      then prepared (world.prepare_for_startup https domains provider w)
      else elim (validate https domains w) [
        | ok _ ↦ (renew_soon https sites provider w, ok tt)
        | err e ↦
            after_refresh https domains provider (refresh_certificate world https sites provider w)
      ]

  -- When a temporary certificate is installed, for which domains and in which world: where no domain
  -- is wanted, for ACME, or where the files are not valid and the refresh of them failed.
  pub data IsTemporary (https : HttpsConfig) (sites : List SiteConfig)
      (provider : TlsProviderConfig) (w : W) : List Text → W → Type ℓ where
    nothing_wanted :
        certificate_domains sites (resolve provider) ≡ []
        → IsTemporary https sites provider w (codes "localhost" ∷ []) w
    by_acme :
        resolve provider ≡ acme
        → IsTemporary https sites provider w (certificate_domains sites (resolve provider)) w
    refresh_failed :
        (c : CertificateError) (reason : TlsError)
        → validate https (certificate_domains sites (resolve provider)) w ≡ err c
        → (refresh_certificate world https sites provider w).1 ≡ err reason
        → IsTemporary https sites provider w
            (certificate_domains sites (resolve provider))
            (refresh_certificate world https sites provider w).0

  -- Startup fails only if nothing can be served: the files are not those of a valid certificate and
  -- neither is what was fetched for them, or a temporary certificate cannot be installed.
  pub data Failure (https : HttpsConfig) (sites : List SiteConfig) (provider : TlsProviderConfig)
      (w : W) (e : TlsError) : Type ℓ where
    fetched_invalid :
        (before c : CertificateError)
        → e ≡ invalid c
        → is_empty_list (certificate_domains sites (resolve provider)) ≡ false
        → resolve provider ≢ acme
        → validate https (certificate_domains sites (resolve provider)) w ≡ err before
        → (refresh_certificate world https sites provider w).1 ≡ ok tt
        → validate https
            (certificate_domains sites (resolve provider))
            (refresh_certificate world https sites provider w).0
          ≡ err c
        → Failure https sites provider w e
    not_installed :
        (domains : List Text) (before : W) (reason : Text)
        → e ≡ failed reason
        → IsTemporary https sites provider w domains before
        → (world.prepare_for_startup https domains provider before).1 ≡ err reason
        → Failure https sites provider w e

  is_acme-eq : (kind : TlsProviderKind) → is_acme kind ≡ true → kind ≡ acme
  is_acme-eq acme h = refl
  is_acme-eq no_provider h = cc
  is_acme-eq cloudflare h = cc
  is_acme-eq command h = cc

  is_acme-neq : (kind : TlsProviderKind) → is_acme kind ≡ false → kind ≢ acme
  is_acme-neq kind h e = ground (arith, ap is_acme e)

  no_domains : (domains : List Text) → is_empty_list domains ≡ true → domains ≡ []
  no_domains [] h = refl
  no_domains (d ∷ domains) h = cc

  as_failed-err :
      (r : Checked Text) (e : TlsError)
      → as_failed r ≡ err e
      → (reason : Text) × (e ≡ failed reason) × (r ≡ err reason)
  as_failed-err (ok done) e h = cc
  as_failed-err (err reason) e h = (reason, ground arith, refl)

  as_invalid-err :
      (r : Checked CertificateError) (e : TlsError)
      → as_invalid r ≡ err e
      → (c : CertificateError) × (e ≡ invalid c) × (r ≡ err c)
  as_invalid-err (ok done) e h = cc
  as_invalid-err (err c) e h = (c, ground arith, refl)

  prepared-Failure :
      (https : HttpsConfig) (sites : List SiteConfig) (provider : TlsProviderConfig) (w : W)
      (e : TlsError) {domains : List Text} {before : W}
      → IsTemporary https sites provider w domains before
      → (prepared (world.prepare_for_startup https domains provider before)).1 ≡ err e
      → Failure https sites provider w e
  unfolding prepared
  prepared-Failure https sites provider w e {domains} {before} temporary h =
      let (reason, same, failed_so) =
        as_failed-err (world.prepare_for_startup https domains provider before).1 e h in
      not_installed domains before reason same temporary failed_so

  -- Where the files are not valid and the provider is not ACME.
  refreshed-Failure :
      (https : HttpsConfig) (sites : List SiteConfig) (provider : TlsProviderConfig) (w : W)
      (e : TlsError) (before : CertificateError)
      → is_empty_list (certificate_domains sites (resolve provider)) ≡ false
      → resolve provider ≢ acme
      → validate https (certificate_domains sites (resolve provider)) w ≡ err before
      → (after_refresh https
          (certificate_domains sites (resolve provider))
          provider
          (refresh_certificate world https sites provider w)).1
        ≡ err e
      → Failure https sites provider w e
  unfolding after_refresh
  refreshed-Failure https sites provider w e before some_yet other not_valid h =
      let refreshed = refresh_certificate world https sites provider w in
      let domains = certificate_domains sites (resolve provider) in
      elim (Result-cases refreshed.1) [
        | inl (_, done) ↦
            let (c, is, so) =
              as_invalid-err (validate https domains refreshed.0) e (ground (arith, done)) in
            fetched_invalid before c is some_yet other not_valid done so
        | inr (reason, first) ↦
            prepared-Failure https sites provider w e (refresh_failed before reason not_valid first)
              (ground (arith, first))
      ]

  -- The certificate at startup fails only in these cases, and the error says which: the files were
  -- not those of a valid certificate for the wanted domains, a provider other than ACME refreshed
  -- them, and they are not valid either; or a temporary certificate could not be installed, which is
  -- tried where no domain is wanted, for ACME, or where the files were not valid and their refresh
  -- failed.
  pub ensure_valid_certificate-Failure :
      (https : HttpsConfig) (sites : List SiteConfig) (provider : TlsProviderConfig) (w : W)
      (e : TlsError)
      → (ensure_valid_certificate https sites provider w).1 ≡ err e
      → Failure https sites provider w e
  unfolding ensure_valid_certificate
  ensure_valid_certificate-Failure https sites provider w e h =
      let kind = resolve provider in
      let domains = certificate_domains sites kind in
      elim (Bool-cases (is_empty_list domains)) [
        | inl none_yet ↦
            prepared-Failure https sites provider w e (nothing_wanted (no_domains domains none_yet))
              (ground arith)
        | inr some_yet ↦ elim (Bool-cases (is_acme kind)) [
          | inl acme_so ↦
              prepared-Failure https sites provider w e (by_acme (is_acme-eq kind acme_so))
                (ground arith)
          | inr other ↦ elim (Result-cases (validate https domains w)) [
            | inl (_, valid) ↦ absurd (ground arith)
            | inr (c, not_valid) ↦
                refreshed-Failure https sites provider w e c some_yet (is_acme-neq kind other)
                  not_valid (ground arith)
          ]
        ]
      ]
