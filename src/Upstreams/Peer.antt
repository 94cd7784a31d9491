-- ===== src/Upstreams/Peer.antt =====
-- src/upstreams.rs: the peer of an upstream. `ROOT_CA` is a cell that is set once for the program:
-- its value is a state here. The cell of once_cell, which is given what loading a CA would come to,
-- and the loading of a CA from a path are arguments.
use konnector.Prelude.{
  ℕ, ◌≡◌, Bool, Option, none, some, arith, Text, if◌then◌else◌, Result, ok, ◌>>=◌,
}
use konnector.Configs.Types.{UpstreamConfig, Alpn, h1, to_alpn}
use konnector.Http.{ProxyError}

pub record HttpPeer (Ca : Type 0) : Type 0 where
  pub address : Text
  pub tls : Bool
  pub sni : Text
  pub alpn : Alpn
  pub idle_timeout : Option ℕ
  pub ca : Option Ca

module _ {Ca : Type 0} (load_ca : Text → Result ProxyError Ca)
    (get_or_try_init : Option Ca → Result ProxyError Ca → Result ProxyError (Ca × Option Ca)) where
  with_ca : Option Ca → Option Text → HttpPeer Ca → Result ProxyError (HttpPeer Ca × Option Ca)
  with_ca root none peer = ok (peer, root)
  with_ca root (some path) peer = get_or_try_init root (load_ca path) >>= λ (ca, root').
      ok (record peer { ca = some ca }, root')

  -- `configure_peer` of a new peer; the value of the cell comes back beside the peer.
  unfoldable pub configure_peer :
      Option Ca → UpstreamConfig → Bool → Result ProxyError (HttpPeer Ca × Option Ca)
  unfolding with_ca
  configure_peer root u websocket = with_ca root u.ca_path (record {
    address = u.address;
    tls = u.tls;
    sni = u.sni;
    alpn = if websocket then h1 else to_alpn u.http_version u.tls;
    idle_timeout = if websocket then none else some 60;
    ca = none;
  })

  -- A websocket is connected to over HTTP/1.1 and without an idle timeout, whatever the upstream's
  -- version; any other request with the version's protocols and 60 seconds.
  pub configure_peer-protocol :
      (root root' : Option Ca) (u : UpstreamConfig) (websocket : Bool) {peer : HttpPeer Ca}
      → configure_peer root u websocket ≡ ok (peer, root')
      → (peer.alpn ≡ (if websocket then h1 else to_alpn u.http_version u.tls))
        × (peer.idle_timeout ≡ (if websocket then none else some 60))
        × (peer.address ≡ u.address)
        × (peer.tls ≡ u.tls)
        × (peer.sni ≡ u.sni)
  unfolding configure_peer
  configure_peer-protocol root root' u websocket h = ground arith
