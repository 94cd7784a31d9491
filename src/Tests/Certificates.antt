-- ===== src/Tests/Certificates.antt =====
-- The theorems on certificates at concrete inputs. The world is a number: the refreshes so far.
use konnector.Prelude.{
  ℕ, ◌+◌, ◌≡◌, ◌↔◌, refl, true, false, none, some, List, [], ◌∷◌, codes, ok, err, is_some, str_eq,
  trim, to_ascii_lowercase, trim_end_matches, contains_char, starts_with, ends_with, rsplit_once,
}
use konnector.Prelude.Sorting.{sorted_set}
use konnector.Prelude.IpAddr.{is_ip_addr}
use konnector.Configs.Types.{SiteConfig}
use konnector.Configs.Tls.{HttpsConfig, TlsProviderConfig, TlsProviderKind}
use konnector.Domains.Hosts.{is_wildcard}
use konnector.Domains.Matching.{Names}
use konnector.Certificates.Names.{normalized, certificate_domains}
use konnector.Certificates.Coverage.{identity_matches, identity_matches_iff}
use konnector.Certificates.Files.{
  TlsFiles, IsServable, validate_certificate_files, validate_certificate_files_iff,
}
use konnector.Certificates.Provider.{World, TlsError, resolve}
use konnector.Certificates.Renewal.{
  ensure_valid_certificate, Failure, ensure_valid_certificate-Failure,
}
use konnector.Certificates.Watcher.{
  Reason, Outcome, IsSafe, handle_tls_change, handle_tls_change-IsSafe, handle_tls_change-no_loop,
}
use konnector.Tests.Data.{site_config}

abbrev sites : List SiteConfig
sites = site_config (codes "www.shop.com") ∷ site_config (codes "*.Shop.com") ∷ []

identity_matches_iff_example :
    (identity_matches (codes "*.Shop.com.") (codes "www.shop.com") ≡ true)
    ↔ Names (normalized (codes "*.Shop.com.")) (codes "www.shop.com")
identity_matches_iff_example = identity_matches_iff (codes "*.Shop.com.") (codes "www.shop.com")

abbrev shop_files : TlsFiles
shop_files = record {
  certificate = ok (record {
    common_name = some (codes "shop.com");
    dns_names = codes "*.shop.com" ∷ [];
    expired = some false;
  });
  key_matches = ok true;
}

validate_certificate_files_iff_example :
    (validate_certificate_files shop_files (codes "www.shop.com" ∷ []) ≡ ok tt)
    ↔ IsServable shop_files (codes "www.shop.com" ∷ [])
validate_certificate_files_iff_example =
    validate_certificate_files_iff shop_files (codes "www.shop.com" ∷ [])

-- Nothing can be read or installed.
abbrev broken : World ℕ
broken = record {
  files = λ https w. record {
    certificate = err (codes "no certificate");
    key_matches = err (codes "no key");
  };
  expires_within_30_days = λ https w. true;
  issue_certificate = λ https domains provider w. (w + 1, err (codes "no order"));
  fetch_cloudflare_origin_certificate = λ token hostnames w. (w + 1, err (codes "no answer"));
  write_atomic = λ path content w. (w, err (codes "read-only"));
  run_fetch_command = λ command https w. (w + 1, err (codes "status 1"));
  prepare_for_startup = λ https domains provider w. (w, err (codes "read-only"));
  backoff_remaining = λ provider w. (w, none);
}

abbrev https : HttpsConfig
https = record {
  certificate_path = codes "/etc/ssl/konnector/fullchain.pem";
  private_key_path = codes "/etc/ssl/konnector/privkey.pem";
}

abbrev provider : TlsProviderKind → TlsProviderConfig
provider kind = record {
  provider = kind;
  cloudflare_api_token = none;
  fetch_command = some (codes "fetch");
  check_interval_seconds = 21600;
  acme_staging = false;
  tls_dir = none;
}

ensure_valid_certificate-Failure_example :
    Failure broken https sites
      (provider TlsProviderKind.command)
      0
      (TlsError.failed (codes "read-only"))
unfolding ensure_valid_certificate str_eq trim to_ascii_lowercase trim_end_matches contains_char
    starts_with ends_with rsplit_once is_ip_addr is_wildcard sorted_set certificate_domains
ensure_valid_certificate-Failure_example =
    ensure_valid_certificate-Failure broken https sites (provider TlsProviderKind.command) 0
      (TlsError.failed (codes "read-only")) refl

-- The files hold a certificate of the shop.
abbrev renewed : World ℕ
renewed = record broken { files = λ https w. shop_files; expires_within_30_days = λ https w. false }

handle_tls_change-IsSafe_example :
    IsSafe renewed https
      (site_config (codes "www.shop.com") ∷ [])
      (provider TlsProviderKind.command)
      (handle_tls_change renewed https
        (site_config (codes "www.shop.com") ∷ [])
        (provider TlsProviderKind.command)
        Reason.file_change
        0)
handle_tls_change-IsSafe_example =
    handle_tls_change-IsSafe renewed https (site_config (codes "www.shop.com") ∷ [])
      (provider TlsProviderKind.command) Reason.file_change 0

handle_tls_change-no_loop_example :
    ((handle_tls_change broken https sites (provider TlsProviderKind.acme) Reason.file_change 0).0
      ≡ 0)
    × ((reason : Reason)
        → is_some {A = ℕ} none ≡ true
        → handle_tls_change broken https sites (provider TlsProviderKind.acme) reason 0
          ≡ (0, Outcome.stay))
unfolding resolve
handle_tls_change-no_loop_example =
    handle_tls_change-no_loop broken https sites (provider TlsProviderKind.acme) 0 refl
