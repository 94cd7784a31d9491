-- ===== src/Upstreams/Selection.antt =====
-- src/upstreams.rs: `resolve_upstream_selection`; and `selected_upstream`, by which the later stages
-- of a request find its upstream again (src/path_rewrite.rs and src/request_logging.rs).
use konnector.Prelude.{
  ℕ, ◌≡◌, ◌⊎◌, refl, Option, none, some, List, [], arith, Text, codes, str_eq, if◌then◌else◌,
  get_elem?, position, option_map, Result, ok, ◌>>=◌, ok_or, Option-cases, inl, inr, position-some,
}
use konnector.Prelude.StringLaws.{str_eq-eq}
use konnector.Configs.Types.{UpstreamConfig}
use konnector.Http.{ProxyError, http_status, internal_error, panic, explain}
use konnector.Paths.Routes.{find_route}
use konnector.Proxy.Runtime.{
  UpstreamRuntime, direct, load_balanced, upstream_at, SiteRuntime, RequestContext,
}

abbrev pub Selected : Type 0
Selected = Result ProxyError (UpstreamConfig × RequestContext)

-- A slice's index, which panics out of bounds.
abbrev pub index_or_panic {ℓ} : {A : Type ℓ} → List A → ℕ → Result ProxyError A
index_or_panic xs i = ok_or (get_elem? xs i) (explain panic (codes "index out of bounds"))

-- `load_balancer.select(key, 256)`: the address of a healthy backend, if there is one.
abbrev pub Balancer : Type 0
Balancer = Text → Option Text

pub position_of : List UpstreamConfig → Text → Option ℕ
position_of us address = position (λ u. str_eq u.address address) us

unfoldable pub select_direct : UpstreamConfig → RequestContext → Selected
select_direct u ctx = ok (u, record ctx { upstream = some 0 })

unfoldable pub select_balanced : Balancer → List UpstreamConfig → Text → RequestContext → Selected
unfolding position_of
select_balanced balancer us path ctx = do
  address ←
      ok_or (balancer (if ctx.websocket then path else []))
        (explain (http_status 503) (codes "no healthy upstream"))
  index ←
      ok_or (position_of us address)
        (explain internal_error (codes "selected upstream is not configured"))
  u ← index_or_panic us index
  ok (u, record ctx { upstream = some index })

select_target : Balancer → UpstreamRuntime → Text → RequestContext → Selected
select_target balancer (direct u) path ctx = select_direct u ctx
select_target balancer (load_balanced us) path ctx = select_balanced balancer us path ctx

unfoldable pub select_route : SiteRuntime → ℕ → RequestContext → Selected
select_route site i ctx = do
  r ← index_or_panic site.internal_routes i
  ok (r.upstream, record ctx { internal_route = some i; upstream = some 0 })

unfoldable pub resolve_upstream_selection :
    Balancer → SiteRuntime → Text → RequestContext → Selected
unfolding select_route select_target select_direct select_balanced
resolve_upstream_selection balancer site path ctx = elim (find_route path site.internal_routes) [
  | some i ↦ select_route site i ctx
  | none ↦ select_target balancer site.target path ctx
]

-- `selected_upstream` of src/path_rewrite.rs
unfoldable pub selected_upstream : RequestContext → SiteRuntime → Option UpstreamConfig
selected_upstream ctx site = elim ctx.internal_route [
  | some i ↦ option_map (λ r. r.upstream) (get_elem? site.internal_routes i)
  | none ↦ elim ctx.upstream [ none ↦ none | some i ↦ upstream_at site.target i ]
]

-- A selection keeps the request's site and flags, and its context leads back to its upstream.
pub record IsCoherent (site : SiteRuntime) (ctx : RequestContext) (u : UpstreamConfig)
    (ctx' : RequestContext) : Type 0 where
  pub found_again : selected_upstream ctx' site ≡ some u
  pub same_site : ctx'.site ≡ ctx.site
  pub same_websocket : ctx'.websocket ≡ ctx.websocket
  pub same_proxied : ctx'.proxied ≡ ctx.proxied
  pub same_access_log : ctx'.skip_access_log ≡ ctx.skip_access_log
  pub same_rewrite : ctx'.path_rewrite ≡ ctx.path_rewrite
  pub same_start : ctx'.started_at ≡ ctx.started_at

ok_or-eq-ok {ℓ} :
    {A : Type ℓ} (o : Option A) (e : ProxyError) {a : A} → ok_or o e ≡ ok a → o ≡ some a
ok_or-eq-ok none e h = cc
ok_or-eq-ok (some b) e h = cc

target_cases :
    (t : UpstreamRuntime)
    → ((v : UpstreamConfig) × (t ≡ direct v))
      ⊎ ((us : List UpstreamConfig) × (t ≡ load_balanced us))
target_cases (direct v) = inl (v, refl)
target_cases (load_balanced us) = inr (us, refl)

module _ (balancer : Balancer) (site : SiteRuntime) (path : Text) (ctx : RequestContext) where
  select_route-IsCoherent :
      (i : ℕ) {u : UpstreamConfig} {ctx' : RequestContext}
      → select_route site i ctx ≡ ok (u, ctx')
      → IsCoherent site ctx u ctx'
  unfolding select_route selected_upstream
  select_route-IsCoherent i h = elim (Option-cases (get_elem? site.internal_routes i)) [
    | inl out ↦ absurd (ground arith)
    | inr (r, at) ↦ ground arith
  ]

  select_direct-IsCoherent :
      (v : UpstreamConfig) {u : UpstreamConfig} {ctx' : RequestContext}
      → site.target ≡ direct v
      → ctx.internal_route ≡ none
      → select_direct v ctx ≡ ok (u, ctx')
      → IsCoherent site ctx u ctx'
  unfolding select_direct selected_upstream upstream_at
  select_direct-IsCoherent v t fresh h = ground arith

  select_balanced-IsCoherent :
      (us : List UpstreamConfig) {u : UpstreamConfig} {ctx' : RequestContext}
      → site.target ≡ load_balanced us
      → ctx.internal_route ≡ none
      → select_balanced balancer us path ctx ≡ ok (u, ctx')
      → IsCoherent site ctx u ctx'
        × (balancer (if ctx.websocket then path else []) ≡ some u.address)
  unfolding select_balanced selected_upstream upstream_at position_of
  select_balanced-IsCoherent us t fresh h =
      elim (Option-cases (balancer (if ctx.websocket then path else []))) [
        | inl down ↦ absurd (ground arith)
        | inr (address, up) ↦ elim (Option-cases (position_of us address)) [
          | inl unknown ↦ absurd (ground arith)
          | inr (index, known) ↦
              let (v, at, names, _) =
                position-some (λ w. str_eq w.address address) us index known in
              let e : v.address ≡ address = str_eq-eq v.address address names in
              (ground arith, ground arith)
        ]
      ]

  select_target-IsCoherent :
      {u : UpstreamConfig} {ctx' : RequestContext}
      → ctx.internal_route ≡ none
      → select_target balancer site.target path ctx ≡ ok (u, ctx')
      → IsCoherent site ctx u ctx'
  unfolding select_target
  select_target-IsCoherent fresh h = elim (target_cases site.target) [
    | inl (v, t) ↦ select_direct-IsCoherent v t fresh (ground arith)
    | inr (us, t) ↦ (select_balanced-IsCoherent us t fresh (ground arith)).0
  ]

  -- A request whose context names no stale route is given an upstream that the later stages find
  -- again by the context, and its site and flags stay as they are.
  pub resolve_upstream_selection-IsCoherent :
      {u : UpstreamConfig} {ctx' : RequestContext}
      → (find_route path site.internal_routes ≡ none → ctx.internal_route ≡ none)
      → resolve_upstream_selection balancer site path ctx ≡ ok (u, ctx')
      → IsCoherent site ctx u ctx'
  unfolding resolve_upstream_selection
  resolve_upstream_selection-IsCoherent fresh h =
      elim (Option-cases (find_route path site.internal_routes)) [
        | inl e ↦ select_target-IsCoherent (fresh e) (ground arith)
        | inr (i, e) ↦ select_route-IsCoherent i (ground arith)
      ]
