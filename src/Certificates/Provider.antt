-- ===== src/Certificates/Provider.antt =====
-- src/ssl.rs: which provider certificates come from, and `refresh_certificate`. What it calls (the
-- ACME client, the Cloudflare API, the configured command, the writing of files) acts on a world, a
-- parameter; so does what reads it.
use konnector.Prelude.{
  ℕ, ◌≡◌, refl, Bool, not, Option, none, some, List, if◌then◌else◌, Result, Checked, ok, err, Text,
  is_empty, trim, is_some, option_filter,
}
use konnector.Configs.Types.{SiteConfig}
use konnector.Configs.Tls.{
  HttpsConfig, TlsProviderConfig, TlsProviderKind, no_provider, acme, cloudflare, command,
}
use konnector.Validation.Upstream.{is_empty_list}
use konnector.Certificates.Names.{certificate_domains, cloudflare_hostnames}
use konnector.Certificates.Files.{TlsFiles, CertificateError}

-- `.as_deref().filter(|value| !value.trim().is_empty())`
unfoldable pub filled : Option Text → Option Text
unfolding trim
filled value = option_filter (λ text. not (is_empty (trim text))) value

-- TlsProviderConfig::resolve; the sites are asked, but the answer does not depend on them.
unfoldable pub resolve : TlsProviderConfig → TlsProviderKind
unfolding filled
resolve provider = elim provider.provider [
  | acme ↦ acme
  | cloudflare ↦ cloudflare
  | command ↦ command
  | no_provider ↦
      if is_some (filled provider.cloudflare_api_token)
      then cloudflare
      else if is_some provider.fetch_command
      then command
      else no_provider
]

-- The world that certificates live in, and what the program does with it.
pub record World {ℓ} (W : Type ℓ) : Type ℓ where
  pub files : HttpsConfig → W → TlsFiles
  pub expires_within_30_days : HttpsConfig → W → Bool
  pub issue_certificate : HttpsConfig → List Text → TlsProviderConfig → W → W × Checked Text
  pub fetch_cloudflare_origin_certificate : Text → List Text → W → W × Result Text (Text × Text)
  pub write_atomic : Text → Text → W → W × Checked Text
  pub run_fetch_command : Text → HttpsConfig → W → W × Checked Text
  pub prepare_for_startup : HttpsConfig → List Text → TlsProviderConfig → W → W × Checked Text
  pub backoff_remaining : TlsProviderConfig → W → W × Option ℕ

pub data TlsError : Type 0 where
  no_tls_domains no_token no_command without_provider : TlsError
  failed : Text → TlsError
  invalid : CertificateError → TlsError

abbrev pub as_failed : Checked Text → Checked TlsError
as_failed (ok done) = ok tt
as_failed (err e) = err (failed e)

module _ {ℓ} {W : Type ℓ} (world : World W) where
  write_key : Text → Text → W × Checked Text → W × Checked TlsError
  write_key path key (w, ok done) = let (w', r) = world.write_atomic path key w in (w', as_failed r)
  write_key path key (w, err e) = (w, err (failed e))

  -- The certificate, then its key.
  unfoldable pub write_certificate_files : HttpsConfig → Text × Text → W → W × Checked TlsError
  unfolding write_key
  write_certificate_files https (certificate, key) w =
      write_key https.private_key_path key (world.write_atomic https.certificate_path certificate w)

  install_fetched : HttpsConfig → W × Result Text (Text × Text) → W × Checked TlsError
  unfolding write_certificate_files
  install_fetched https (w, ok pair) = write_certificate_files https pair w
  install_fetched https (w, err e) = (w, err (failed e))

  from_cloudflare : HttpsConfig → List Text → Option Text → W → W × Checked TlsError
  unfolding install_fetched
  from_cloudflare https domains none w = (w, err no_token)
  from_cloudflare https domains (some token) w =
      install_fetched https
        (world.fetch_cloudflare_origin_certificate token (cloudflare_hostnames domains) w)

  from_command : HttpsConfig → Option Text → W → W × Checked TlsError
  from_command https none w = (w, err no_command)
  from_command https (some text) w =
      let (w', r) = world.run_fetch_command text https w in (w', as_failed r)

  refresh_with :
      TlsProviderKind → HttpsConfig → List Text → TlsProviderConfig → W → W × Checked TlsError
  unfolding from_cloudflare from_command filled
  refresh_with acme https domains provider w =
      let (w', r) = world.issue_certificate https domains provider w in (w', as_failed r)
  refresh_with cloudflare https domains provider w =
      from_cloudflare https domains (filled provider.cloudflare_api_token) w
  refresh_with command https domains provider w =
      from_command https (filled provider.fetch_command) w
  refresh_with no_provider https domains provider w = (w, err without_provider)

  unfoldable pub refresh_certificate :
      HttpsConfig → List SiteConfig → TlsProviderConfig → W → W × Checked TlsError
  unfolding refresh_with resolve certificate_domains
  refresh_certificate https sites provider w =
      let kind = resolve provider in
      let domains = certificate_domains sites kind in
      if is_empty_list domains
      then (w, err no_tls_domains)
      else refresh_with kind https domains provider w

-- A provider that is set to none still becomes Cloudflare where there is a token that is not blank.
pub resolve-none :
    (provider : TlsProviderConfig) (token : Text)
    → provider.provider ≡ no_provider
    → filled provider.cloudflare_api_token ≡ some token
    → resolve provider ≡ cloudflare
unfolding resolve
resolve-none provider token h e = rw (h, e) refl
