-- ===== src/Configs/Tls.antt =====
-- src/configs.rs: the settings of HTTPS and of the provider of its certificates, from the root file
-- and the environment. The default directory, of src/paths.rs, is an argument.
use konnector.Prelude.{
  ℕ, ◌≡◌, refl, Bool, true, false, not, ◌||◌, Option, none, some, [], arith, if◌then◌else◌, Text,
  codes, str_eq, trim, to_ascii_lowercase, is_some, Option-cases, Bool-cases, inl, inr,
}
use konnector.Prelude.FilePath.{join_path}
use konnector.Configs.Env.{Env, env_string, env_optional, env_u64, env_bool, is_one_of, no_words}

pub record HttpsConfig : Type 0 where
  pub certificate_path : Text
  pub private_key_path : Text

pub data TlsProviderKind : Type 0 where
  no_provider acme cloudflare command : TlsProviderKind

pub record TlsProviderConfig : Type 0 where
  pub provider : TlsProviderKind
  pub cloudflare_api_token : Option Text
  pub fetch_command : Option Text
  pub check_interval_seconds : ℕ
  pub acme_staging : Bool
  pub tls_dir : Option Text

pub record RootTlsSettings : Type 0 where
  pub enabled : Bool
  pub staging : Bool

-- TlsProviderConfig::default()
unfoldable pub default_provider : TlsProviderConfig
default_provider = record {
  provider = no_provider;
  cloudflare_api_token = none;
  fetch_command = none;
  check_interval_seconds = 0;
  acme_staging = false;
  tls_dir = none;
}

-- `TLS_ENABLED` is set to one of the words for off.
unfoldable pub switched_off : Env → Bool
unfolding is_one_of
switched_off env = elim (env (codes "TLS_ENABLED")) [
  | none ↦ false
  | some value ↦ is_one_of no_words (trim value)
]

unfoldable pub tls_enabled : Env → RootTlsSettings → Bool
unfolding switched_off env_bool env_optional
tls_enabled env yaml =
    let enabled =
      env_bool env (codes "TLS_ENABLED") true
      || yaml.enabled
      || is_some (env_optional env (codes "CLOUDFLARE_API_TOKEN")) in
    if switched_off env then false else enabled

-- The provider that is chosen where none is named.
abbrev pub automatic : Bool → TlsProviderKind
automatic has_token = if has_token then cloudflare else acme

unfoldable pub named_provider : Text → Bool → TlsProviderKind
unfolding str_eq
named_provider name has_token =
    if str_eq name (codes "acme") || str_eq name (codes "letsencrypt")
    then acme
    else if str_eq name (codes "cloudflare")
    then cloudflare
    else if str_eq name (codes "command")
    then command
    else if str_eq name (codes "none")
    then no_provider
    else automatic has_token

-- Cloudflare without a token falls back to ACME.
unfoldable pub with_fallback : TlsProviderKind → Bool → TlsProviderKind
with_fallback cloudflare false = acme
with_fallback cloudflare true = cloudflare
with_fallback no_provider has_token = no_provider
with_fallback acme has_token = acme
with_fallback command has_token = command

abbrev default_interval : ℕ
default_interval = 21600

unfoldable pub provider_kind : Env → TlsProviderKind
unfolding named_provider with_fallback env_string env_optional
provider_kind env =
    let has_token = is_some (env_optional env (codes "CLOUDFLARE_API_TOKEN")) in
    with_fallback
      (named_provider (to_ascii_lowercase (env_string env (codes "TLS_PROVIDER") [])) has_token)
      has_token

unfoldable pub provider_config : Env → Text → RootTlsSettings → TlsProviderConfig
unfolding provider_kind env_optional env_u64 env_bool
provider_config env tls_dir yaml = record {
  provider = provider_kind env;
  cloudflare_api_token = env_optional env (codes "CLOUDFLARE_API_TOKEN");
  fetch_command = env_optional env (codes "TLS_FETCH_COMMAND");
  check_interval_seconds = env_u64 env (codes "TLS_CHECK_INTERVAL_SECONDS") default_interval;
  acme_staging = env_bool env (codes "ACME_STAGING") yaml.staging;
  tls_dir = some tls_dir;
}

unfoldable pub https_config : Text → HttpsConfig
unfolding join_path
https_config tls_dir = record {
  certificate_path = join_path tls_dir (codes "fullchain.pem");
  private_key_path = join_path tls_dir (codes "privkey.pem");
}

unfoldable pub resolve_tls_config :
    Env → Text → RootTlsSettings → Option HttpsConfig × TlsProviderConfig
unfolding tls_enabled https_config provider_config default_provider env_string
resolve_tls_config env ssl_dir yaml =
    let tls_dir = env_string env (codes "TLS_DIR") ssl_dir in
    if not (tls_enabled env yaml)
    then (none, default_provider)
    else (some (https_config tls_dir), provider_config env tls_dir yaml)

with_fallback-token :
    (kind : TlsProviderKind) (has_token : Bool)
    → with_fallback kind has_token ≡ cloudflare
    → has_token ≡ true
unfolding with_fallback
with_fallback-token cloudflare false h = cc
with_fallback-token cloudflare true h = refl
with_fallback-token no_provider has_token h = cc
with_fallback-token acme has_token h = cc
with_fallback-token command has_token h = cc

-- What the resolved settings promise, `yaml` being what the root file says: HTTPS is on unless
-- `TLS_ENABLED` says off, where that variable, the root file or a token asks for it; Cloudflare is
-- the provider only with a token; the certificate and the key are in the directory that the provider
-- has, which `TLS_DIR` may name; and the root file decides on the staging directory of ACME, unless
-- the environment does.
pub record IsResolved (env : Env) (ssl_dir : Text) (yaml : RootTlsSettings)
    (https : Option HttpsConfig) (provider : TlsProviderConfig) : Type 0 where
  pub off : switched_off env ≡ true → (https ≡ none) × (provider ≡ default_provider)
  pub on :
      switched_off env ≡ false
      → is_some https ≡ (
          env_bool env (codes "TLS_ENABLED") true
          || yaml.enabled
          || is_some (env_optional env (codes "CLOUDFLARE_API_TOKEN")))
  pub token : provider.provider ≡ cloudflare → (t : Text) × (provider.cloudflare_api_token ≡ some t)
  pub located :
      (files : HttpsConfig)
      → https ≡ some files
      → (provider.tls_dir ≡ some (env_string env (codes "TLS_DIR") ssl_dir))
        × (files ≡ https_config (env_string env (codes "TLS_DIR") ssl_dir))
  pub staged :
      (files : HttpsConfig)
      → https ≡ some files
      → provider.acme_staging ≡ env_bool env (codes "ACME_STAGING") yaml.staging

provider_config-token :
    (env : Env) (tls_dir : Text) (yaml : RootTlsSettings)
    → (provider_config env tls_dir yaml).provider ≡ cloudflare
    → (t : Text) × ((provider_config env tls_dir yaml).cloudflare_api_token ≡ some t)
unfolding provider_config provider_kind
provider_config-token env tls_dir yaml h =
    elim (Option-cases (env_optional env (codes "CLOUDFLARE_API_TOKEN"))) [
      | inr (t, e) ↦ (t, e)
      | inl missing ↦
          let has =
            with_fallback-token _ (is_some (env_optional env (codes "CLOUDFLARE_API_TOKEN"))) h in
          absurd (ground (arith, missing, has))
    ]

-- The resolved settings keep these promises.
pub resolve_tls_config-IsResolved :
    (env : Env) (ssl_dir : Text) (yaml : RootTlsSettings)
    → let (https, provider) = resolve_tls_config env ssl_dir yaml in
      IsResolved env ssl_dir yaml https provider
unfolding resolve_tls_config tls_enabled provider_config
resolve_tls_config-IsResolved env ssl_dir yaml = elim (Bool-cases (tls_enabled env yaml)) [
  | inl on ↦ rw on (record {
    off = λ h. absurd (ground arith);
    on = λ h. ground (arith, on, h);
    token = λ h. provider_config-token env (env_string env (codes "TLS_DIR") ssl_dir) yaml h;
    located = λ files h. (refl, ground arith);
    staged = λ files h. refl;
  })
  | inr off ↦ rw off (record {
    off = λ h. (refl, refl);
    on = λ h. ground (arith, off, h);
    token = λ h. cc;
    located = λ files h. cc;
    staged = λ files h. cc;
  })
]
