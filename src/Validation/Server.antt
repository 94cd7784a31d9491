-- ===== src/Validation/Server.antt =====
-- src/validation.rs: `validate_server`. The warning for an ACME certificate that is not ready yet
-- is not modelled; an error is a constructor for its message.
use konnector.Prelude.{
  ◌≡◌, ◌≢◌, ◌<◌, refl, Bool, true, false, not, ◌||◌, Option, none, some, List, arith, if◌then◌else◌,
  Checked, ok, err, ◌>>◌, map_err, reject_if, Text, str_eq, is_empty, trim, ◌==◌, Result-cases,
  Bool-cases, inl, inr,
}
use konnector.Prelude.StringLaws.{str_eq_iff}
use konnector.Configs.Types.{SiteConfig, ProxyTarget}
use konnector.Configs.Tls.{HttpsConfig, TlsProviderConfig}
use konnector.Configs.Root.{ServerConfig}
use konnector.Validation.Upstream.{UpstreamError, validate_proxy_target}
use konnector.Certificates.Names.{proxied_tls_domains}
use konnector.Certificates.Files.{
  TlsFiles, CertificateError, validate_certificate_files, IsServable,
  validate_certificate_files_iff,
}
use konnector.Certificates.Provider.{resolve}
use konnector.Certificates.Renewal.{is_acme}

pub data ServerError : Type 0 where
  no_threads empty_paths no_certificate no_key same_listeners : ServerError
  bad_certificate : CertificateError → ServerError
  bad_root_proxy : UpstreamError → ServerError

-- What the checks read: whether a path is a file, and the two files as OpenSSL reads them.
pub record FileView : Type 0 where
  pub is_file : Text → Bool
  pub tls_files : HttpsConfig → TlsFiles

-- The files of a provider that does not issue them at startup.
check_files : FileView → HttpsConfig → List SiteConfig → Checked ServerError
check_files view https sites =
    reject_if (not (view.is_file https.certificate_path)) no_certificate
    >> reject_if (not (view.is_file https.private_key_path)) no_key
    >> map_err bad_certificate
        (validate_certificate_files (view.tls_files https) (proxied_tls_domains sites))

unfoldable pub check_https :
    FileView → TlsProviderConfig → List SiteConfig → Option HttpsConfig → Checked ServerError
unfolding check_files resolve
check_https view provider sites none = ok tt
check_https view provider sites (some https) =
    if is_empty (trim https.certificate_path) || is_empty (trim https.private_key_path)
    then err empty_paths
    else if is_acme (resolve provider)
    then ok tt
    else check_files view https sites

unfoldable pub check_root : FileView → Option ProxyTarget → Checked ServerError
unfolding validate_proxy_target
check_root view none = ok tt
check_root view (some target) = map_err bad_root_proxy (validate_proxy_target view.is_file target)

unfoldable pub validate_server : FileView → ServerConfig → List SiteConfig → Checked ServerError
unfolding check_https check_root
validate_server view root sites =
    reject_if (root.threads == 0) no_threads
    >> check_https view root.tls_provider sites root.https
    >> reject_if (str_eq root.http_listen root.https_listen) same_listeners
    >> check_root view root.root_proxy

-- What an accepted server promises.
pub record IsReady (view : FileView) (root : ServerConfig) (sites : List SiteConfig) : Type 0 where
  pub threaded : 0 < root.threads
  pub apart : root.http_listen ≢ root.https_listen
  pub proxied :
      (target : ProxyTarget)
      → root.root_proxy ≡ some target
      → validate_proxy_target view.is_file target ≡ ok tt
  pub located :
      (https : HttpsConfig)
      → root.https ≡ some https
      → (is_empty (trim https.certificate_path) || is_empty (trim https.private_key_path)) ≡ false
  pub certified :
      (https : HttpsConfig)
      → root.https ≡ some https
      → is_acme (resolve root.tls_provider) ≡ false
      → (view.is_file https.certificate_path ≡ true)
        × (view.is_file https.private_key_path ≡ true)
        × IsServable (view.tls_files https) (proxied_tls_domains sites)

map_err-eq-ok : {E F : Type 0} (f : E → F) (r : Checked E) → map_err f r ≡ ok tt → r ≡ ok tt
map_err-eq-ok f (ok done) h = refl
map_err-eq-ok f (err e) h = cc

check_files-certified :
    (view : FileView) (https : HttpsConfig) (sites : List SiteConfig)
    → check_files view https sites ≡ ok tt
    → (view.is_file https.certificate_path ≡ true)
      × (view.is_file https.private_key_path ≡ true)
      × IsServable (view.tls_files https) (proxied_tls_domains sites)
unfolding check_files
check_files-certified view https sites h = elim (Bool-cases (view.is_file https.certificate_path)) [
  | inr missing ↦ absurd (ground arith)
  | inl there ↦ elim (Bool-cases (view.is_file https.private_key_path)) [
    | inr missing ↦ absurd (ground arith)
    | inl with_key ↦ (
      there,
      with_key,
      (validate_certificate_files_iff (view.tls_files https) (proxied_tls_domains sites)).0
          (map_err-eq-ok bad_certificate _ (ground arith)),
    )
  ]
]

check_https-some :
    (view : FileView) (provider : TlsProviderConfig) (sites : List SiteConfig) (https : HttpsConfig)
    → check_https view provider sites (some https) ≡ ok tt
    → ((is_empty (trim https.certificate_path) || is_empty (trim https.private_key_path)) ≡ false)
      × (is_acme (resolve provider) ≡ false → check_files view https sites ≡ ok tt)
unfolding check_https
check_https-some view provider sites https h = (ground arith, λ other. ground arith)

validate_server-parts :
    (view : FileView) (root : ServerConfig) (sites : List SiteConfig)
    → validate_server view root sites ≡ ok tt
    → ((root.threads == 0) ≡ false)
      × (check_https view root.tls_provider sites root.https ≡ ok tt)
      × (str_eq root.http_listen root.https_listen ≡ false)
      × (check_root view root.root_proxy ≡ ok tt)
unfolding validate_server
validate_server-parts view root sites h = elim (Bool-cases (root.threads == 0)) [
  | inl idle ↦ absurd (ground arith)
  | inr busy ↦ elim (Result-cases (check_https view root.tls_provider sites root.https)) [
    | inr (e, failed) ↦ absurd (ground arith)
    | inl (_, checked) ↦ elim (Bool-cases (str_eq root.http_listen root.https_listen)) [
      | inl same ↦ absurd (ground arith)
      | inr differ ↦ (busy, checked, differ, ground arith)
    ]
  ]
]

-- A server is accepted only with a thread, with two listeners that differ, with a root proxy whose
-- upstreams are accepted, and, where HTTPS is on, with the paths of two files, which unless ACME
-- provides them exist and can be served for the domains of the sites.
pub validate_server-IsReady :
    (view : FileView) (root : ServerConfig) (sites : List SiteConfig)
    → validate_server view root sites ≡ ok tt
    → IsReady view root sites
unfolding check_root
validate_server-IsReady view root sites h =
    let (threads, https_checked, differ, root_checked) = validate_server-parts view root sites h in
    let some_https : (https : HttpsConfig)
        → root.https ≡ some https
        → check_https view root.tls_provider sites (some https) ≡ ok tt =
      λ https e. rw (← e) https_checked in
    record {
      threaded = ground arith;
      apart = λ e. absurd (ground (arith, differ, str_eq_iff root.http_listen root.https_listen));
      proxied = λ target e. map_err-eq-ok bad_root_proxy _ (ground (arith, e, root_checked));
      located =
          λ https e. (check_https-some view root.tls_provider sites https (some_https https e)).0;
      certified = λ https e other.
          check_files-certified view https sites
            ((check_https-some view root.tls_provider sites https (some_https https e)).1 other);
    }
