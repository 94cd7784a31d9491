-- ===== src/Application.antt =====
-- src/application.rs, `reload_routing` of src/proxy/routing.rs and src/config_watcher.rs: how the
-- program starts and reloads its configuration from the parts. Logging, pingora's server and the
-- threads are not modelled; the routing table is a state that a reload replaces.
pub mod Accepted
use mathlib.Core.List.{Memᴰ}
use mathlib.Core.Path.{subst}
use konnector.Prelude.{
  ◌≡◌, refl, Bool, true, false, not, ◌&&◌, Option, none, some, List, [], ◌∷◌, arith, if◌then◌else◌,
  Checked, ok, err, Text, is_some, Bool-cases, Result-cases, Option-cases, inl, inr, ◌⊎◌, ◌∙◌, ◌++◌,
  append_assoc, All,
}
use konnector.Configs.Types.{SiteConfig}
use konnector.Configs.Tcp.{TcpProxyConfig}
use konnector.Configs.Tls.{HttpsConfig, TlsProviderConfig}
use konnector.Configs.Root.{ServerConfig, Machine, server}
use konnector.Configs.Loading.{load_sites_from_lenient, load_tcp_from_lenient}
use konnector.Validation.Site.{ClaimMap, validate_site, filter_from, filter_valid_sites}
use konnector.Validation.Exclusive.{
  Exclusive, accept, skip, filter_step, filter_valid_sites-Exclusive,
}
use konnector.Validation.Server.{FileView, validate_server, IsReady, validate_server-IsReady}
use konnector.Proxy.Routing.{ProxyRouting, build_proxy_routing}
use konnector.TcpProxy.Manager
use konnector.TcpProxy.Manager.{Manager}
use konnector.Certificates.Names.{proxied_tls_domains}
use konnector.Certificates.Files.{CertificateError}
use konnector.Certificates.Provider.{World, TlsError, resolve}
use konnector.Certificates.Renewal.{ensure_valid_certificate, is_acme, validate}

-- What a reload reads: the directory, the parsers, the machine and the files of the certificate.
pub record Sources : Type 0 where
  pub names : Option (List Text)
  pub parse_site : Text → Option SiteConfig
  pub parse_tcp : Text → Option TcpProxyConfig
  pub machine : Machine
  pub view : FileView

abbrev pub valid_sites : Sources → List SiteConfig
valid_sites s = filter_valid_sites s.view.is_file (load_sites_from_lenient s.parse_site s.names)

-- The routing table after a reload: the old one if the server is refused.
unfoldable pub reload_routing : Sources → ProxyRouting → ProxyRouting
unfolding validate_server build_proxy_routing server filter_valid_sites load_sites_from_lenient
reload_routing s routing =
    let root = server s.machine in
    elim (validate_server s.view root (valid_sites s)) [
      | err e ↦ routing
      | ok _ ↦ build_proxy_routing (valid_sites s) root.root_proxy root.logging
    ]

-- notify's kinds of an event: an access, or any other.
pub data EventKind : Type 0 where
  access change : EventKind

-- What the watcher receives of the directory.
pub data WatchEvent : Type 0 where
  watch_error : WatchEvent
  event : EventKind → WatchEvent

pub record Running : Type 0 where
  pub routing : ProxyRouting
  pub tcp : Manager

unfoldable pub is_noise_event : EventKind → Bool
is_noise_event access = true
is_noise_event change = false

-- `tcp_proxy::reload`
unfoldable pub reload_tcp : Sources → Manager → Manager
unfolding Manager.reload load_tcp_from_lenient server
reload_tcp s manager =
    let loaded = load_tcp_from_lenient s.parse_tcp s.names in
    let (reloaded, stopped) = Manager.reload loaded (server s.machine).logging manager in reloaded

-- One turn of the watcher's loop, with what is read at that time.
unfoldable pub on_event : Sources → WatchEvent → Running → Running
unfolding reload_routing reload_tcp is_noise_event
on_event s watch_error running = running
on_event s (event kind) running =
    let reloaded : Running = record {
      routing = reload_routing s running.routing;
      tcp = reload_tcp s running.tcp;
    } in
    if is_noise_event kind then running else reloaded

unfoldable pub watch : List (Sources × WatchEvent) → Running → Running
unfolding on_event
watch [] running = running
watch ((s, e) ∷ events) running = watch events (on_event s e running)

-- What `run` decides on HTTPS: the files to listen with, and whether ACME starts in the background.
pub record HttpsPlan : Type 0 where
  pub https_ready : Option HttpsConfig
  pub acme_bootstrap : Bool

module _ {ℓ} {W : Type ℓ} (world : World W) where
  is_ok : Checked CertificateError → Bool
  is_ok (ok done) = true
  is_ok (err e) = false

  -- The pause is looked at only if the files are not good for a while.
  bootstrap : HttpsConfig → List SiteConfig → TlsProviderConfig → W → W × Bool
  unfolding validate proxied_tls_domains is_ok
  bootstrap https sites provider w =
      let (looked, remaining) = world.backoff_remaining provider w in
      if is_ok (validate world https (proxied_tls_domains sites) w)
        && not (world.expires_within_30_days https w)
      then (w, false)
      else (looked, not (is_some remaining))

  after_ensure :
      HttpsConfig → List SiteConfig → TlsProviderConfig → W × Checked TlsError → W × HttpsPlan
  unfolding bootstrap resolve
  after_ensure https sites provider (w, err e) =
      (w, record { https_ready = none; acme_bootstrap = false })
  after_ensure https sites provider (w, ok done) =
      let (w', start) = bootstrap https sites provider w in
      if is_acme (resolve provider)
      then (w', record { https_ready = some https; acme_bootstrap = start })
      else (w, record { https_ready = some https; acme_bootstrap = false })

  unfoldable pub plan_https : ServerConfig → List SiteConfig → W → W × HttpsPlan
  unfolding after_ensure ensure_valid_certificate
  plan_https root sites w = elim root.https [
    | none ↦ (w, record { https_ready = none; acme_bootstrap = false })
    | some https ↦
        after_ensure https sites root.tls_provider
          (ensure_valid_certificate world https sites root.tls_provider w)
  ]

  after_ensure-plan :
      (https : HttpsConfig) (sites : List SiteConfig) (provider : TlsProviderConfig)
      (r : W × Checked TlsError)
      → (let plan = (after_ensure https sites provider r).1 in
          (is_some plan.https_ready ≡ true → r.1 ≡ ok tt)
          × (plan.acme_bootstrap ≡ true
              → (plan.https_ready ≡ some https)
                × (is_acme (resolve provider) ≡ true)
                × ((world.backoff_remaining provider r.0).1 ≡ none)))
  unfolding after_ensure bootstrap
  after_ensure-plan https sites provider (w, err e) = (λ h. cc, λ h. cc)
  after_ensure-plan https sites provider (w, ok done) =
      elim (Bool-cases (is_acme (resolve provider))) [
        | inl by_acme ↦ elim (Option-cases (world.backoff_remaining provider w).1) [
          | inl free ↦ (λ h. refl, λ h. (ground (arith, by_acme), by_acme, free))
          | inr (n, paused) ↦ (λ h. refl, λ h. absurd (ground (arith, by_acme, paused)))
        ]
        | inr other ↦ (λ h. refl, λ h. absurd (ground (arith, other)))
      ]

  -- HTTPS is listened to only if it is on and a certificate was ensured; ACME starts in the
  -- background only then, only as the provider, and never in a pause after a failure.
  pub plan_https_lem :
      (root : ServerConfig) (sites : List SiteConfig) (https : HttpsConfig) (w : W)
      → root.https ≡ some https
      → (let ensured = ensure_valid_certificate world https sites root.tls_provider w in
          let plan = (plan_https root sites w).1 in
          (is_some plan.https_ready ≡ true → ensured.1 ≡ ok tt)
          × (plan.acme_bootstrap ≡ true
              → (plan.https_ready ≡ some https)
                × (is_acme (resolve root.tls_provider) ≡ true)
                × ((world.backoff_remaining root.tls_provider ensured.0).1 ≡ none)))
  unfolding plan_https
  plan_https_lem root sites https w on = rw on (
      after_ensure-plan https sites root.tls_provider
        (ensure_valid_certificate world https sites root.tls_provider w))
