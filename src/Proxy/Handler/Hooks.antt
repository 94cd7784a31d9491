-- ===== src/Proxy/Handler/Hooks.antt =====
-- src/proxy/handler.rs: the hooks on the request to an upstream and on its response, which pass a
-- websocket over. A hook on the request gives the request and the context back where it succeeds.
use konnector.Prelude.{
  ℕ, ◌≡◌, Bool, true, Option, List, arith, if◌then◌else◌, Result, ok, ◌>>=◌, >>=-eq-ok,
}
use konnector.Session.{Session}
use konnector.Http.{HttpLib, Request, ProxyError}
use konnector.Forwarding
use konnector.Upstreams.Transform.{apply_request_transform}
use konnector.PathRewrite.Location.{UrlLib, prepare}
use konnector.PathRewrite.Body
use konnector.Proxy.Runtime.{RequestContext}
use konnector.Proxy.Routing.{ProxyRouting}

abbrev unless_websocket {ℓ} : {A : Type ℓ} → RequestContext → A → A → A
unless_websocket ctx passed handled = if ctx.websocket then passed else handled

module _ (lib : HttpLib) where
  unfoldable pub upstream_request_filter :
      ProxyRouting
      → Session
      → RequestContext
      → Request lib.Headers
      → Result ProxyError (Request lib.Headers × RequestContext)
  upstream_request_filter routing s ctx request = do
    forwarded ← Forwarding.apply lib s ctx routing.sites request
    sent ← apply_request_transform lib routing.sites forwarded ctx
    ok (sent, unless_websocket ctx ctx (prepare s ctx routing.sites))

  unfoldable pub response_filter :
      UrlLib → lib.Headers → RequestContext → Result ProxyError lib.Headers
  response_filter urls h ctx =
      unless_websocket ctx (ok h) (Body.upstream_response_filter lib urls h ctx)

unfoldable pub response_body_filter :
    Option (List ℕ) → Bool → RequestContext → Option (List ℕ) × RequestContext
response_body_filter body end_of_stream ctx =
    unless_websocket ctx (body, ctx) (Body.upstream_response_body_filter body end_of_stream ctx)

-- A websocket goes through the hooks on its request and its response without a rewrite: its context
-- is kept, and so are the headers and the bytes of its response.
pub websocket_kept :
    (lib : HttpLib) (urls : UrlLib) (routing : ProxyRouting) (s : Session)
    (ctx ctx' : RequestContext) (request request' : Request lib.Headers) (h : lib.Headers)
    (body : Option (List ℕ)) (end_of_stream : Bool)
    → ctx.websocket ≡ true
    → upstream_request_filter lib routing s ctx request ≡ ok (request', ctx')
    → (ctx' ≡ ctx)
      × (response_filter lib urls h ctx ≡ ok h)
      × (response_body_filter body end_of_stream ctx ≡ (body, ctx))
unfolding upstream_request_filter response_filter response_body_filter
websocket_kept lib urls routing s ctx ctx' request request' h body end_of_stream on e =
    let (forwarded, _, rest) =
      >>=-eq-ok (Forwarding.apply lib s ctx routing.sites request)
        (λ forwarded. apply_request_transform lib routing.sites forwarded ctx >>= λ sent.
          ok (sent, unless_websocket ctx ctx (prepare s ctx routing.sites)))
        e in
    let (sent, _, last) =
      >>=-eq-ok (apply_request_transform lib routing.sites forwarded ctx)
        (λ sent. ok (sent, unless_websocket ctx ctx (prepare s ctx routing.sites))) rest in
    (ground arith, ground arith, ground arith)
