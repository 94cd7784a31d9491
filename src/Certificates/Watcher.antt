-- ===== src/Certificates/Watcher.antt =====
-- src/ssl_watcher.rs: `handle_tls_change`. A restart is the end of the process, so the outcome says
-- whether there is one; what is logged is left out. The reason is the string of the source.
use konnector.Prelude.{
  ℕ, ◌≡◌, ◌≢◌, refl, Bool, true, false, ◌&&◌, Option, none, some, List, arith, if◌then◌else◌,
  Checked, ok, err, Text, is_some, Bool-cases, inl, inr,
}
use konnector.Configs.Types.{SiteConfig}
use konnector.Configs.Tls.{
  HttpsConfig, TlsProviderConfig, TlsProviderKind, no_provider, acme, cloudflare, command,
}
use konnector.Certificates.Names.{certificate_domains}
use konnector.Certificates.Files.{CertificateError}
use konnector.Certificates.Provider.{World, TlsError, resolve, refresh_certificate}
use konnector.Certificates.Renewal.{is_acme, validate}

pub data Reason : Type 0 where
  file_change scheduled_check : Reason

pub data Outcome : Type 0 where
  stay restart : Outcome

abbrev is_file_change : Reason → Bool
is_file_change file_change = true
is_file_change scheduled_check = false

abbrev has_provider : TlsProviderKind → Bool
has_provider no_provider = false
has_provider acme = true
has_provider cloudflare = true
has_provider command = true

-- What the check of the files comes to.
pub data Check : Type 0 where
  leave restart_now refresh : Check

unfoldable pub check_files : TlsProviderKind → Reason → Bool → Checked CertificateError → Check
check_files kind reason expires (ok valid) =
    if has_provider kind && expires
    then (if is_acme kind && is_file_change reason then leave else refresh)
    else if is_file_change reason
    then restart_now
    else leave
check_files kind reason expires (err e) =
    if is_acme kind && is_file_change reason then leave else refresh

abbrev restart_if : Checked CertificateError → Outcome
restart_if (ok valid) = restart
restart_if (err e) = stay

module _ {ℓ} {W : Type ℓ} (world : World W) where
  -- After the refresh: a certificate that is valid by now is served by a new process.
  after_refresh : HttpsConfig → List Text → W × Checked TlsError → W × Outcome
  after_refresh https domains (w, err e) = (w, stay)
  after_refresh https domains (w, ok done) = (w, restart_if (validate world https domains w))

  -- An outcome, by the check of the files.
  by_check : HttpsConfig → List SiteConfig → TlsProviderConfig → W → Check → W × Outcome
  unfolding after_refresh refresh_certificate resolve certificate_domains
  by_check https sites provider w leave = (w, stay)
  by_check https sites provider w restart_now = (w, restart)
  by_check https sites provider w refresh =
      after_refresh https (certificate_domains sites (resolve provider))
        (refresh_certificate world https sites provider w)

  unfoldable pub check_and_refresh :
      HttpsConfig → List SiteConfig → TlsProviderConfig → Reason → W → W × Outcome
  unfolding by_check check_files validate resolve certificate_domains
  check_and_refresh https sites provider reason w =
      let kind = resolve provider in
      let domains = certificate_domains sites kind in
      by_check https sites provider w (
        check_files kind reason (world.expires_within_30_days https w)
          (validate world https domains w))

  unless_paused :
      HttpsConfig → List SiteConfig → TlsProviderConfig → Reason → W × Option ℕ → W × Outcome
  unfolding check_and_refresh
  unless_paused https sites provider reason (w, some remaining) = (w, stay)
  unless_paused https sites provider reason (w, none) =
      check_and_refresh https sites provider reason w

  unfoldable pub handle_tls_change :
      HttpsConfig → List SiteConfig → TlsProviderConfig → Reason → W → W × Outcome
  unfolding unless_paused check_and_refresh resolve
  handle_tls_change https sites provider reason w =
      if is_acme (resolve provider)
      then unless_paused https sites provider reason (world.backoff_remaining provider w)
      else check_and_refresh https sites provider reason w

  -- The files are valid for the domains in the world that a restart leaves.
  abbrev pub IsSafe : HttpsConfig → List SiteConfig → TlsProviderConfig → W × Outcome → Type 0
  IsSafe https sites provider (w, outcome) =
      outcome ≡ restart
      → validate world https (certificate_domains sites (resolve provider)) w ≡ ok tt

  restart_if-ok : (c : Checked CertificateError) → restart_if c ≡ restart → c ≡ ok tt
  restart_if-ok (ok valid) h = refl
  restart_if-ok (err e) h = cc

  after_refresh-IsSafe :
      (https : HttpsConfig) (sites : List SiteConfig) (provider : TlsProviderConfig)
      (r : W × Checked TlsError)
      → IsSafe https sites provider
          (after_refresh https (certificate_domains sites (resolve provider)) r)
  unfolding after_refresh
  after_refresh-IsSafe https sites provider (w, err e) h = cc
  after_refresh-IsSafe https sites provider (w, ok done) h = restart_if-ok _ h

  check_files-restart :
      (kind : TlsProviderKind) (reason : Reason) (expires : Bool) (c : Checked CertificateError)
      → check_files kind reason expires c ≡ restart_now
      → c ≡ ok tt
  unfolding check_files
  check_files-restart kind reason expires (ok valid) h = refl
  check_files-restart kind reason expires (err e) h = absurd (ground arith)

  check_files-acme :
      (kind : TlsProviderKind) (expires : Bool) (c : Checked CertificateError)
      → is_acme kind ≡ true
      → check_files kind file_change expires c ≢ refresh
  unfolding check_files
  check_files-acme kind expires (ok valid) by_acme h = absurd (ground arith)
  check_files-acme kind expires (err e) by_acme h = absurd (ground arith)

  by_check-IsSafe :
      (https : HttpsConfig) (sites : List SiteConfig) (provider : TlsProviderConfig) (w : W)
      (check : Check)
      → (check ≡ restart_now
          → validate world https (certificate_domains sites (resolve provider)) w ≡ ok tt)
      → IsSafe https sites provider (by_check https sites provider w check)
  unfolding by_check
  by_check-IsSafe https sites provider w leave valid h = cc
  by_check-IsSafe https sites provider w restart_now valid h = valid refl
  by_check-IsSafe https sites provider w refresh valid h =
      after_refresh-IsSafe https sites provider (refresh_certificate world https sites provider w) h

  check_and_refresh-IsSafe :
      (https : HttpsConfig) (sites : List SiteConfig) (provider : TlsProviderConfig)
      (reason : Reason) (w : W)
      → IsSafe https sites provider (check_and_refresh https sites provider reason w)
  unfolding check_and_refresh
  check_and_refresh-IsSafe https sites provider reason w =
      let domains = certificate_domains sites (resolve provider) in
      by_check-IsSafe https sites provider w
        (check_files (resolve provider) reason (world.expires_within_30_days https w)
          (validate world https domains w))
        (λ h. check_files-restart (resolve provider) reason _ (validate world https domains w) h)

  unless_paused-IsSafe :
      (https : HttpsConfig) (sites : List SiteConfig) (provider : TlsProviderConfig)
      (reason : Reason) (r : W × Option ℕ)
      → IsSafe https sites provider (unless_paused https sites provider reason r)
  unfolding unless_paused
  unless_paused-IsSafe https sites provider reason (w, some remaining) h = cc
  unless_paused-IsSafe https sites provider reason (w, none) h =
      check_and_refresh-IsSafe https sites provider reason w h

  -- Whatever changed and whatever a refresh does, the process restarts only when the certificate
  -- files are valid for the domains that a certificate is wanted for.
  pub handle_tls_change-IsSafe :
      (https : HttpsConfig) (sites : List SiteConfig) (provider : TlsProviderConfig)
      (reason : Reason) (w : W)
      → IsSafe https sites provider (handle_tls_change https sites provider reason w)
  unfolding handle_tls_change
  handle_tls_change-IsSafe https sites provider reason w =
      elim (Bool-cases (is_acme (resolve provider))) [
        | inl by_acme ↦
            rw by_acme (
              unless_paused-IsSafe https sites provider reason (world.backoff_remaining provider w))
        | inr other ↦ rw other (check_and_refresh-IsSafe https sites provider reason w)
      ]

  by_check-keeps :
      (https : HttpsConfig) (sites : List SiteConfig) (provider : TlsProviderConfig) (w : W)
      (check : Check)
      → check ≢ refresh
      → (by_check https sites provider w check).0 ≡ w
  unfolding by_check
  by_check-keeps https sites provider w leave h = refl
  by_check-keeps https sites provider w restart_now h = refl
  by_check-keeps https sites provider w refresh h = absurd (h refl)

  unless_paused-keeps :
      (https : HttpsConfig) (sites : List SiteConfig) (provider : TlsProviderConfig)
      (r : W × Option ℕ)
      → is_acme (resolve provider) ≡ true
      → (unless_paused https sites provider file_change r).0 ≡ r.0
  unfolding unless_paused check_and_refresh
  unless_paused-keeps https sites provider (w, some remaining) kind = refl
  unless_paused-keeps https sites provider (w, none) kind =
      by_check-keeps https sites provider w _ (λ h. check_files-acme (resolve provider) _ _ kind h)

  unless_paused-paused :
      (https : HttpsConfig) (sites : List SiteConfig) (provider : TlsProviderConfig)
      (reason : Reason) (r : W × Option ℕ)
      → is_some r.1 ≡ true
      → unless_paused https sites provider reason r ≡ (r.0, stay)
  unfolding unless_paused
  unless_paused-paused https sites provider reason (w, some remaining) h = refl
  unless_paused-paused https sites provider reason (w, none) h = cc

  -- With ACME a change of the files, such as the writing of a temporary certificate, never starts an
  -- issuance: the world stays as the look at the pause leaves it. In a pause nothing does.
  pub handle_tls_change-no_loop :
      (https : HttpsConfig) (sites : List SiteConfig) (provider : TlsProviderConfig) (w : W)
      → resolve provider ≡ acme
      → (let looked = world.backoff_remaining provider w in
          ((handle_tls_change https sites provider file_change w).0 ≡ looked.0)
          × ((reason : Reason)
              → is_some looked.1 ≡ true
              → handle_tls_change https sites provider reason w ≡ (looked.0, stay)))
  unfolding handle_tls_change
  handle_tls_change-no_loop https sites provider w kind =
      let by_acme : is_acme (resolve provider) ≡ true = rw kind refl in
      (
        rw by_acme
            (unless_paused-keeps https sites provider (world.backoff_remaining provider w) by_acme),
        λ reason paused. rw by_acme (
            unless_paused-paused https sites provider reason (world.backoff_remaining provider w)
              paused),
      )
