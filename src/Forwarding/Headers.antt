-- ===== src/Forwarding/Headers.antt =====
-- What `forwarding::apply` leaves in the headers of the request to the upstream.
use konnector.Prelude.{
  ℕ, ◌≡◌, refl, Bool, true, false, not, ◌||◌, ◌&&◌, Option, none, some, arith, Text, codes, str_eq,
  if◌then◌else◌, ok, ◌∙◌, ◌>>=◌, >>=-eq-ok, Option-cases, inl, inr, print_uint,
}
use konnector.Session.{Session}
use konnector.Http.{HttpLib, Request}
use konnector.Configs.Types.{ForwardingConfig, cloudflare, trusted_proxy}
use konnector.Proxy.Runtime.{SiteRuntime}
use konnector.Forwarding.{
  is_direct, is_cloudflare, public_host, public_scheme, public_port, insert_header, insert_port,
  write_headers, remove_identity, apply_site,
}

module _ (lib : HttpLib) where
  open lib use {Headers, get, insert, remove, get_insert, get_remove}

  abbrev is_client_header : Text → Bool
  is_client_header name = str_eq (codes "forwarded") name || str_eq (codes "x-forwarded-for") name

  abbrev is_cloudflare_header : Text → Bool
  is_cloudflare_header name =
      str_eq (codes "cf-connecting-ip") name
      || str_eq (codes "cf-ipcountry") name
      || str_eq (codes "cf-ray") name

  get-remove_identity :
      (forwarding : ForwardingConfig) (h : Headers) (name : Text)
      → get (remove_identity lib forwarding h) name ≡ (
          if is_direct forwarding && is_client_header name
          then none
          else if not (is_cloudflare forwarding) && is_cloudflare_header name
          then none
          else get h name)
  unfolding remove_identity
  get-remove_identity ForwardingConfig.direct h name = simp get_remove (ground arith)
  get-remove_identity cloudflare h name = refl
  get-remove_identity trusted_proxy h name = simp get_remove (ground arith)

  -- The headers that `apply` drops for a way of forwarding.
  abbrev pub is_dropped : ForwardingConfig → Text → Bool
  is_dropped forwarding name =
      is_direct forwarding && is_client_header name
      || not (is_cloudflare forwarding) && is_cloudflare_header name

  get-remove_dropped :
      (f : ForwardingConfig) (h : Headers) (name : Text)
      → is_dropped f name ≡ true
      → get (remove_identity lib f h) name ≡ none
  get-remove_dropped f h name d = ground (arith, get-remove_identity f h name)

  get-remove_kept :
      (f : ForwardingConfig) (h : Headers) (name : Text)
      → is_dropped f name ≡ false
      → get (remove_identity lib f h) name ≡ get h name
  get-remove_kept f h name d = ground (arith, get-remove_identity f h name)

  host_kept : (f : ForwardingConfig) → is_dropped f (codes "x-forwarded-host") ≡ false
  unfolding str_eq
  host_kept ForwardingConfig.direct = refl
  host_kept cloudflare = refl
  host_kept trusted_proxy = refl

  proto_kept : (f : ForwardingConfig) → is_dropped f (codes "x-forwarded-proto") ≡ false
  unfolding str_eq
  proto_kept ForwardingConfig.direct = refl
  proto_kept cloudflare = refl
  proto_kept trusted_proxy = refl

  -- The headers that `apply` writes.
  abbrev pub is_written : Text → Bool
  is_written name =
      str_eq (codes "x-forwarded-host") name
      || str_eq (codes "x-forwarded-proto") name
      || str_eq (codes "x-forwarded-port") name

  get-insert_header :
      (h : Headers) (name value : Text) (other : Text) {h' : Headers}
      → insert_header lib h name value ≡ ok h'
      → get h' other ≡ (if str_eq name other then some value else get h other)
  unfolding insert_header
  get-insert_header h name value other e = elim (Option-cases (insert h name value)) [
    | inl failed ↦ absurd (ground arith)
    | inr (k, done) ↦ ground (arith, get_insert h k name value done other)
  ]

  get-insert_port :
      (port : Option ℕ) (h : Headers) (other : Text) {h' : Headers}
      → insert_port lib port h ≡ ok h'
      → str_eq (codes "x-forwarded-port") other ≡ false
      → get h' other ≡ get h other
  unfolding insert_port
  get-insert_port none h other e n = cc
  get-insert_port (some port) h other e n =
      ground (arith, get-insert_header h (codes "x-forwarded-port") (print_uint port) other e)

  pub record IsWritten (s : Session) (site : SiteRuntime) (old new : Headers) : Type 0 where
    pub host : get new (codes "x-forwarded-host") ≡ some (public_host s site)
    pub proto : get new (codes "x-forwarded-proto") ≡ some (public_scheme s site)
    pub kept : (name : Text) → is_written name ≡ false → get new name ≡ get old name

  write_headers-IsWritten :
      (s : Session) (site : SiteRuntime) (old : Headers) {new : Headers}
      → write_headers lib s site old ≡ ok new
      → IsWritten s site old new
  unfolding write_headers str_eq
  write_headers-IsWritten s site old e =
      let host = codes "x-forwarded-host" in
      let proto = codes "x-forwarded-proto" in
      let (g, one, rest) =
        >>=-eq-ok (insert_header lib old host (public_host s site))
          (λ h.
            insert_header lib h proto (public_scheme s site) >>= insert_port lib (public_port s))
          e in
      let (h, two, more) =
        >>=-eq-ok (insert_header lib g proto (public_scheme s site))
          (insert_port lib (public_port s)) rest in
      record {
        host =
            get-insert_port (public_port s) h host more refl
            ∙ get-insert_header g proto (public_scheme s site) host two
            ∙ get-insert_header old host (public_host s site) host one;
        proto =
            get-insert_port (public_port s) h proto more refl
            ∙ get-insert_header g proto (public_scheme s site) proto two;
        kept = λ name n. ground (
          arith,
          get-insert_port (public_port s) h name more,
          get-insert_header g proto (public_scheme s site) name two,
          get-insert_header old host (public_host s site) name one,
        );
      }

  pub record IsForwarded (s : Session) (site : SiteRuntime) (old new : Headers) : Type 0 where
    pub host : get new (codes "x-forwarded-host") ≡ some (public_host s site)
    pub proto : get new (codes "x-forwarded-proto") ≡ some (public_scheme s site)
    pub clean : (name : Text) → is_dropped site.forwarding name ≡ true → get new name ≡ none
    pub kept :
        (name : Text)
        → is_dropped site.forwarding name ≡ false
        → is_written name ≡ false
        → get new name ≡ get old name

  -- Where `apply` succeeds, the request carries the public host and scheme; a direct site drops
  -- `forwarded` and `x-forwarded-for`, any but a Cloudflare site drops the three Cloudflare headers,
  -- and every header that is neither dropped nor written stays as it was.
  pub apply_site-IsForwarded :
      (s : Session) (site : SiteRuntime) (request : Request Headers) {result : Request Headers}
      → apply_site lib s site request ≡ ok result
      → IsForwarded s site request.headers result.headers
  unfolding apply_site
  apply_site-IsForwarded s site request {result} e =
      let f = site.forwarding in
      let (h, w, same) =
        >>=-eq-ok (write_headers lib s site request.headers)
          (λ h. ok (record request { headers = remove_identity lib f h })) e in
      let written = write_headers-IsWritten s site request.headers w in
      let result_eq : record request { headers = remove_identity lib f h } ≡ result = cc in
      rw (← result_eq) (record {
        host = get-remove_kept f h (codes "x-forwarded-host") (host_kept f) ∙ written.host;
        proto = get-remove_kept f h (codes "x-forwarded-proto") (proto_kept f) ∙ written.proto;
        clean = λ name d. get-remove_dropped f h name d;
        kept = λ name d n. get-remove_kept f h name d ∙ written.kept name n;
      })
