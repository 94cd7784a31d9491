-- ===== src/Http3/Connection.antt =====
-- src/http3.rs: `resolve_upstream_addr` and `build_tls_config`. The resolver, the parser of certificates
-- and the store of roots are arguments; an error keeps its kind and the fixed part of its text.
use konnector.Prelude.{
  Option, none, some, List, [], ◌∷◌, ◌++◌, Result, Checked, ok, err, ◌>>=◌, ◌>>◌, map_err, Text,
  codes,
}
use konnector.Configs.Types.{UpstreamConfig}
use konnector.Http.{ProxyError, ErrorType, internal_error, connect_error, explain}

-- An error of the kind, where there is one.
abbrev pub failing {ℓ} : {A : Type ℓ} → ErrorType → Text → Result Text A → Result ProxyError A
failing etype context r = map_err (λ reason. explain etype context) r

-- The first address that the name resolves to.
abbrev first_address {ℓ} : {A : Type ℓ} → List A → Result ProxyError A
first_address [] = err (explain connect_error (codes "no addresses for http/3 upstream"))
first_address (a ∷ rest) = ok a

unfoldable pub resolve_upstream_addr {ℓ} :
    {A : Type ℓ} → (Text → Result Text (List A)) → Text → Result ProxyError A
resolve_upstream_addr lookup_host address =
    failing connect_error (codes "cannot resolve http/3 upstream") (lookup_host address)
    >>= first_address

-- The roots with the certificates of the upstream's own CA behind them: each is read, then added.
unfoldable pub add_certs {ℓ} :
    {C : Type ℓ} → (C → Checked Text) → List (Result Text C) → List C → Result ProxyError (List C)
add_certs add [] roots = ok roots
add_certs add (cert ∷ certs) roots =
    failing internal_error (codes "invalid upstream CA") cert >>= λ c.
    failing internal_error (codes "invalid upstream CA") (add c)
    >> add_certs add certs (roots ++ c ∷ [])

unfoldable pub ca_roots {ℓ} :
    {C : Type ℓ}
    → List C
    → (Text → Result Text (List (Result Text C)))
    → (C → Checked Text)
    → Option Text
    → Result ProxyError (List C)
unfolding add_certs
ca_roots webpki_roots open_ca add none = ok webpki_roots
ca_roots webpki_roots open_ca add (some path) =
    failing internal_error (codes "cannot read upstream CA") (open_ca path) >>= λ certs.
    add_certs add certs webpki_roots

-- The trusted roots of the connection.
unfoldable pub build_tls_config {ℓ} :
    {C : Type ℓ}
    → List C
    → (Text → Result Text (List (Result Text C)))
    → (C → Checked Text)
    → (Text → Checked Text)
    → UpstreamConfig
    → Result ProxyError (List C)
unfolding ca_roots
build_tls_config webpki_roots open_ca add server_name upstream =
    ca_roots webpki_roots open_ca add upstream.ca_path >>= λ roots.
    failing internal_error (codes "invalid http/3 sni") (server_name upstream.sni) >> ok roots
