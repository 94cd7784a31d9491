-- ===== src/Validation/Upstream.antt =====
-- src/validation.rs: the checks of an upstream and of a proxy target. Whether a path names a file is
-- asked of the file system, an argument.
use konnector.Prelude.{
  ◌≡◌, Bool, true, false, ◌&&◌, not, none, some, List, [], ◌∷◌, arith, if◌then◌else◌, Result,
  Checked, ok, err, ◌>>=◌, ◌>>◌, Text, is_empty, trim, ◌==◌, All, refl, ◌↔◌, ◌⊎◌, inl, inr,
  Option-cases, Bool-cases,
}
use konnector.Configs.Types.{
  UpstreamConfig, ProxyTarget, direct, load_balanced, HttpVersion, auto, http11, http2, http3,
}

pub data UpstreamError : Type 0 where
  empty_address tls_without_sni http3_without_tls http3_without_sni http2_without_tls :
      UpstreamError
  ca_without_tls : UpstreamError
  ca_missing : Text → UpstreamError
  no_upstream invalid_interval : UpstreamError

abbrev pub is_empty_list {ℓ} : {A : Type ℓ} → List A → Bool
is_empty_list [] = true
is_empty_list (x ∷ xs) = false

abbrev pub is_http2 : HttpVersion → Bool
is_http2 http2 = true
is_http2 _ = false

abbrev pub is_http3 : HttpVersion → Bool
is_http3 http3 = true
is_http3 _ = false

unfoldable pub validate_upstream_http_version : UpstreamConfig → Checked UpstreamError
validate_upstream_http_version u =
    if is_http3 u.http_version && not u.tls
    then err http3_without_tls
    else if is_http3 u.http_version && is_empty (trim u.sni)
    then err http3_without_sni
    else if is_http2 u.http_version && not u.tls
    then err http2_without_tls
    else ok tt

unfoldable pub validate_ca : (Text → Bool) → UpstreamConfig → Checked UpstreamError
validate_ca is_file u = elim u.ca_path [
  | none ↦ ok tt
  | some path ↦
      if not u.tls
      then err ca_without_tls
      else if not (is_file path)
      then err (ca_missing path)
      else ok tt
]

-- `validate_upstream`, and the body of the loop in `validate_proxy_target`, which is the same.
unfoldable pub validate_upstream : (Text → Bool) → UpstreamConfig → Checked UpstreamError
unfolding validate_upstream_http_version validate_ca
validate_upstream is_file u =
    if is_empty (trim u.address)
    then err empty_address
    else if u.tls && is_empty (trim u.sni)
    then err tls_without_sni
    else validate_upstream_http_version u >> validate_ca is_file u

unfoldable pub validate_upstreams : (Text → Bool) → List UpstreamConfig → Checked UpstreamError
unfolding validate_upstream
validate_upstreams is_file [] = ok tt
validate_upstreams is_file (u ∷ us) = validate_upstream is_file u >> validate_upstreams is_file us

unfoldable pub proxy_target_upstreams : ProxyTarget → Result UpstreamError (List UpstreamConfig)
proxy_target_upstreams (direct u) = ok (u ∷ [])
proxy_target_upstreams (load_balanced us health_check interval) =
    if is_empty_list us
    then err no_upstream
    else if health_check && interval == 0
    then err invalid_interval
    else ok us

unfoldable pub validate_proxy_target : (Text → Bool) → ProxyTarget → Checked UpstreamError
unfolding proxy_target_upstreams validate_upstreams
validate_proxy_target is_file target = proxy_target_upstreams target >>= validate_upstreams is_file

-- What an accepted upstream promises to the code that connects to it.
pub record IsUsable (is_file : Text → Bool) (u : UpstreamConfig) : Type 0 where
  pub addressed : is_empty (trim u.address) ≡ false
  pub named : u.tls ≡ true → is_empty (trim u.sni) ≡ false
  pub http2_encrypted : u.http_version ≡ http2 → u.tls ≡ true
  pub http3_encrypted : u.http_version ≡ http3 → u.tls ≡ true
  pub ca_encrypted : (path : Text) → u.ca_path ≡ some path → u.tls ≡ true
  pub ca_present : (path : Text) → u.ca_path ≡ some path → is_file path ≡ true

validate_upstream-IsUsable :
    (is_file : Text → Bool) (u : UpstreamConfig)
    → validate_upstream is_file u ≡ ok tt
    → IsUsable is_file u
unfolding validate_upstream
validate_upstream-IsUsable is_file u h = record {
  addressed = ground arith;
  named = ground arith;
  http2_encrypted = ground arith;
  http3_encrypted = ground arith;
  ca_encrypted = λ path e. ground arith;
  ca_present = λ path e. ground arith;
}

version_cases :
    (v : HttpVersion) → (v ≡ http2) ⊎ ((v ≡ http3) ⊎ ((is_http2 v ≡ false) × (is_http3 v ≡ false)))
version_cases auto = inr (inr (refl, refl))
version_cases http11 = inr (inr (refl, refl))
version_cases http2 = inl refl
version_cases http3 = inr (inl refl)

http_version_of_IsUsable :
    (is_file : Text → Bool) (u : UpstreamConfig)
    → IsUsable is_file u
    → validate_upstream_http_version u ≡ ok tt
unfolding validate_upstream_http_version
http_version_of_IsUsable is_file u usable = elim (version_cases u.http_version) [
  | inl e ↦ let encrypted = usable.http2_encrypted e in ground arith
  | inr (inl e) ↦
      let encrypted = usable.http3_encrypted e in let named = usable.named encrypted in ground arith
  | inr (inr (not2, not3)) ↦ rw (not2, not3)
]

ca_of_IsUsable :
    (is_file : Text → Bool) (u : UpstreamConfig)
    → IsUsable is_file u
    → validate_ca is_file u ≡ ok tt
unfolding validate_ca
ca_of_IsUsable is_file u usable = elim (Option-cases u.ca_path) [
  | inl e ↦ ground arith
  | inr (path, e) ↦
      let encrypted = usable.ca_encrypted path e in
      let present = usable.ca_present path e in ground arith
]

-- An upstream is accepted exactly when it has an address, TLS comes with an SNI, HTTP/2 and HTTP/3
-- come with TLS, and a custom CA comes with TLS and is a file.
pub validate_upstream_iff :
    (is_file : Text → Bool) (u : UpstreamConfig)
    → (validate_upstream is_file u ≡ ok tt) ↔ IsUsable is_file u
unfolding validate_upstream
validate_upstream_iff is_file u = (
  validate_upstream-IsUsable is_file u,
  λ usable.
      let version = http_version_of_IsUsable is_file u usable in
      let ca = ca_of_IsUsable is_file u usable in
      elim (Bool-cases u.tls) [
        | inl e ↦ let named = usable.named e in ground (arith, usable.addressed)
        | inr e ↦ ground (arith, usable.addressed)
      ],
)

validate_upstreams-IsUsable :
    (is_file : Text → Bool) (us : List UpstreamConfig)
    → validate_upstreams is_file us ≡ ok tt
    → All (IsUsable is_file) us
unfolding validate_upstreams
validate_upstreams-IsUsable is_file [] h = tt
validate_upstreams-IsUsable is_file (u ∷ us) h = (
  validate_upstream-IsUsable is_file u (ground arith),
  validate_upstreams-IsUsable is_file us (ground arith),
)
