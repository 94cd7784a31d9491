-- ===== src/Proxy/Handler/Upstream.antt =====
-- src/proxy/handler.rs: `upstream_peer`, with `select_peer` of src/upstreams.rs. The context is
-- given back where the hook succeeds. The load balancer, the loading of a CA and the cell that holds it
-- are parameters; the value of the cell goes in and comes out.
use konnector.Prelude.{
  ℕ, ◌≡◌, ap, ◌∙◌, ◌||◌, Option, none, some, Text, codes, get_elem?, or_else, Result, ok, ◌>>=◌,
  >>=-eq-ok, ok_or,
}
use konnector.Configs.Types.{UpstreamConfig}
use konnector.Session.{Session, is_upgrade_request}
use konnector.Http.{ProxyError, explain, internal_error}
use konnector.Domains.Sites.{site_for}
use konnector.Proxy.Runtime.{SiteRuntime, RequestContext}
use konnector.Proxy.Routing.{ProxyRouting}
use konnector.Upstreams.Selection.{
  Balancer, resolve_upstream_selection, selected_upstream, index_or_panic, IsCoherent,
  resolve_upstream_selection-IsCoherent,
}
use konnector.Upstreams.Peer.{HttpPeer, configure_peer, configure_peer-protocol}
use konnector.Proxy.Handler.{mark_proxied}

-- The context as the hook marks it before it looks for a site.
unfoldable pub mark_peer : Session → RequestContext → RequestContext
unfolding mark_proxied
mark_peer s ctx = record (mark_proxied ctx) { websocket = is_upgrade_request s || ctx.websocket }

-- The site of the context, or of the request, or the root proxy.
unfoldable pub peer_site : Session → RequestContext → ProxyRouting → Option ℕ
peer_site s ctx routing = or_else (or_else ctx.site (site_for s routing.sites)) routing.root_site

module _ {Ca : Type 0} (load_ca : Text → Result ProxyError Ca)
    (get_or_try_init : Option Ca → Result ProxyError Ca → Result ProxyError (Ca × Option Ca))
    (balancer : Balancer) where
  abbrev Peered : Type 0
  Peered = Result ProxyError ((HttpPeer Ca × Option Ca) × RequestContext)

  unfoldable pub select_peer : Option Ca → SiteRuntime → Text → RequestContext → Peered
  select_peer root site path ctx = resolve_upstream_selection balancer site path ctx >>= λ selected.
      configure_peer load_ca get_or_try_init root selected.0 selected.1.websocket >>= λ peer.
      ok (peer, selected.1)

  unfoldable pub upstream_peer : Option Ca → ProxyRouting → Session → RequestContext → Peered
  unfolding select_peer mark_peer peer_site
  upstream_peer root routing s ctx =
      ok_or (peer_site s (mark_peer s ctx) routing)
        (explain internal_error (codes "root proxy is disabled"))
      >>= λ index. index_or_panic routing.sites index >>= λ site.
          select_peer root site s.path (record (mark_peer s ctx) { site = some index })

  -- What the later stages of a request find again: the site and the upstream that the peer is of.
  pub record IsPeered (routing : ProxyRouting) (s : Session) (ctx ctx' : RequestContext)
      (peer : HttpPeer Ca) : Type 0 where
    pub index : ℕ
    pub site : SiteRuntime
    pub upstream : UpstreamConfig
    pub chosen : peer_site s ctx routing ≡ some index
    pub at : get_elem? routing.sites index ≡ some site
    pub kept : ctx'.site ≡ some index
    pub found_again : selected_upstream ctx' site ≡ some upstream
    pub addressed : peer.address ≡ upstream.address
    pub websocket : ctx'.websocket ≡ (is_upgrade_request s || ctx.websocket)

  ok_or-some {ℓ} :
      {A : Type ℓ} (o : Option A) (e : ProxyError) {a : A} → ok_or o e ≡ ok a → o ≡ some a
  ok_or-some none e h = cc
  ok_or-some (some b) e h = cc

  ok_parts :
      (p : HttpPeer Ca × Option Ca) (c c' : RequestContext) (peer : HttpPeer Ca) (root : Option Ca)
      → ◌≡◌ {A = Peered} (ok (p, c)) (ok ((peer, root), c'))
      → (peer ≡ p.0) × (c' ≡ c)
  ok_parts (q, r) c c' peer root e = (cc, cc)

  select_peer-IsCoherent :
      (root root' : Option Ca) (site : SiteRuntime) (path : Text) (ctx ctx' : RequestContext)
      (peer : HttpPeer Ca)
      → ctx.internal_route ≡ none
      → select_peer root site path ctx ≡ ok ((peer, root'), ctx')
      → (u : UpstreamConfig) × IsCoherent site ctx u ctx' × (peer.address ≡ u.address)
  unfolding select_peer
  select_peer-IsCoherent root root' site path ctx ctx' peer fresh h =
      let ((u, c), picked, more) =
        >>=-eq-ok (resolve_upstream_selection balancer site path ctx)
          (λ selected.
            configure_peer load_ca get_or_try_init root selected.0 selected.1.websocket >>= λ p.
            ok (p, selected.1))
          h in
      let (p, configured, e) =
        >>=-eq-ok (configure_peer load_ca get_or_try_init root u c.websocket) (λ p. ok (p, c))
          more in
      let (built, same) = ok_parts p c ctx' peer root' e in
      let (_, _, addressed, _, _) =
        configure_peer-protocol load_ca get_or_try_init root p.1 u c.websocket configured in
      let coherent =
        resolve_upstream_selection-IsCoherent balancer site path ctx (λ none_found. fresh) picked in
      (u, rw same coherent, ap (λ q. q.address) built ∙ addressed)

  -- Where a request that has no route yet gets a peer, the context leads the later stages to the
  -- site that was chosen and to the upstream whose address the peer has, and it says that the
  -- request is a websocket if it is one.
  pub upstream_peer-IsPeered :
      (root root' : Option Ca) (routing : ProxyRouting) (s : Session) (ctx ctx' : RequestContext)
      (peer : HttpPeer Ca)
      → ctx.internal_route ≡ none
      → upstream_peer root routing s ctx ≡ ok ((peer, root'), ctx')
      → IsPeered routing s ctx ctx' peer
  unfolding upstream_peer
  upstream_peer-IsPeered root root' routing s ctx ctx' peer fresh h =
      let gone = explain internal_error (codes "root proxy is disabled") in
      let (index, chosen, rest) =
        >>=-eq-ok (ok_or (peer_site s (mark_peer s ctx) routing) gone)
          (λ i. index_or_panic routing.sites i >>= λ site.
            select_peer root site s.path (record (mark_peer s ctx) { site = some i }))
          h in
      let (site, at, more) =
        >>=-eq-ok (index_or_panic routing.sites index)
          (λ site. select_peer root site s.path (record (mark_peer s ctx) { site = some index }))
          rest in
      let (u, coherent, addressed) =
        select_peer-IsCoherent root root' site s.path
          (record (mark_peer s ctx) { site = some index }) ctx' peer fresh more in
      record {
        index = index;
        site = site;
        upstream = u;
        chosen = ok_or-some (peer_site s (mark_peer s ctx) routing) gone chosen;
        at = ok_or-some (get_elem? routing.sites index) _ at;
        kept = coherent.same_site;
        found_again = coherent.found_again;
        addressed = addressed;
        websocket = coherent.same_websocket;
      }
