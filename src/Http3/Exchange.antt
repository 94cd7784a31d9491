-- ===== src/Http3/Exchange.antt =====
-- src/http3.rs: `proxy_request`, the exchange with an upstream. What QUIC and the client's session
-- answer is an argument; an error keeps its kind and the fixed part of its text.
use konnector.Prelude.{
  ℕ, ◌+◌, ◌≤◌, length, ◌≡◌, refl, ap, ◌∙◌, Bool, true, false, Option, none, some, List, [], ◌∷◌,
  ◌++◌, map, append-nil, Result, Checked, ok, err, ◌>>=◌, ◌>>◌, Text, codes, unwrap_or,
}
use konnector.Configs.Types.{UpstreamConfig}
use konnector.Http.{
  HttpLib, Request, ProxyError, internal_error, connect_error, write_error, read_error, explain,
}
use konnector.Proxy.Runtime.{PathRewriteState, RequestContext}
use konnector.PathRewrite.Location.{UrlLib}
use konnector.PathRewrite.Body.{
  filter_body, max_body_bytes, upstream_response_filter, upstream_response_body_filter,
}
use konnector.PathRewrite.Stream.{stream, concat, whole, Rewrites, finished, stream-fits}
use konnector.Http3.Headers.{H3Request, build_http_request}
use konnector.Http3.Response.{insert_all}
use konnector.Http3.Connection.{failing, resolve_upstream_addr, build_tls_config}

-- The request body: a chunk is read from the client, then sent; the chunks that were sent.
unfoldable pub send_body :
    (List ℕ → Checked Text) → List (Result ProxyError (List ℕ)) → List (List ℕ) × Checked ProxyError
send_body send_data [] = ([], ok tt)
send_body send_data (chunk ∷ chunks) =
    let rest = send_body send_data chunks in
    elim (chunk >>= λ c.
    failing write_error (codes "http/3 request body failed") (send_data c) >> ok c) [
      | ok c ↦ (c ∷ rest.0, rest.1)
      | err e ↦ ([], err e)
    ]

-- A chunk of the response as it is received, and whether the client takes what is written for it.
pub record Turn : Type 0 where
  pub received : Result Text (List ℕ)
  pub written : Checked ProxyError

pub record Relayed : Type 0 where
  pub body : List ℕ
  pub ctx : RequestContext
  pub result : Checked ProxyError

-- The end of a turn: what was written, if it was, before what the rest of the loop writes.
abbrev after_write : Option (List ℕ) → RequestContext → Checked ProxyError → Relayed → Relayed
after_write body ctx (ok done) rest = record rest { body = unwrap_or body [] ++ rest.body }
after_write body ctx (err e) rest = record { body = []; ctx = ctx; result = err e }

-- The response body, chunk by chunk through the filter, and the end of it.
unfoldable pub relay_body : List Turn → Checked ProxyError → RequestContext → Relayed
unfolding upstream_response_body_filter
relay_body [] ended ctx =
    let (body, ctx') = upstream_response_body_filter none true ctx in
    after_write body ctx' ended (record { body = []; ctx = ctx'; result = ok tt })
relay_body (turn ∷ turns) ended ctx = elim turn.received [
  | err e ↦ record {
    body = [];
    ctx = ctx;
    result = err (explain read_error (codes "http/3 response body failed"));
  }
  | ok chunk ↦
      let (body, ctx') = upstream_response_body_filter (some chunk) false ctx in
      after_write body ctx' turn.written (relay_body turns ended ctx')
]

-- What one exchange meets, in the order of `proxy_request`; a map of headers is iterated as pairs.
pub record Quic (lib : HttpLib) : Type 1 where
  pub Address : Type 0
  pub Certificate : Type 0
  pub lookup_host : Text → Result Text (List Address)
  pub webpki_roots : List Certificate
  pub open_ca : Text → Result Text (List (Result Text Certificate))
  pub add : Certificate → Checked Text
  pub server_name : Text → Checked Text
  pub quic_config : List Certificate → Checked Text
  pub endpoint : Checked Text
  pub connect_with : List Certificate → Address → Text → Checked Text
  pub handshake : Checked Text
  pub client_new : Checked Text
  pub iter : lib.Headers → List (Text × Text)
  pub buildable : H3Request → Bool
  pub send_request : H3Request → Checked Text
  pub request_body : List (Result ProxyError (List ℕ))
  pub send_data : List ℕ → Checked Text
  pub finish : Checked Text
  pub recv_response : Result Text (ℕ × List (Text × Text))
  pub no_headers : lib.Headers
  pub write_header : ℕ → lib.Headers → Checked ProxyError
  pub turns : List Turn
  pub ended : Checked ProxyError

module _ (lib : HttpLib) (urls : UrlLib) (q : Quic lib) where
  open lib use {Headers}

  -- Up to the request header, which is sent.
  unfoldable pub open_stream : Request Headers → UpstreamConfig → Result ProxyError H3Request
  unfolding resolve_upstream_addr build_tls_config build_http_request
  open_stream request u = resolve_upstream_addr q.lookup_host u.address >>= λ addr.
      build_tls_config q.webpki_roots q.open_ca q.add q.server_name u >>= λ roots.
      failing internal_error (codes "invalid http/3 tls config") (q.quic_config roots)
      >> failing internal_error (codes "cannot create http/3 client endpoint") q.endpoint
      >> failing connect_error (codes "http/3 connect failed") (q.connect_with roots addr u.sni)
      >> failing connect_error (codes "http/3 handshake failed") q.handshake
      >> failing internal_error (codes "http/3 client init failed") q.client_new
      >> (build_http_request lib q.iter q.buildable request u >>= λ built.
          failing write_error (codes "http/3 request failed") (q.send_request built) >> ok built)

  -- From the end of the request on: the status and the headers that the client is sent.
  unfoldable pub relay_header : RequestContext → Result ProxyError (ℕ × Headers)
  unfolding insert_all upstream_response_filter
  relay_header ctx =
      failing write_error (codes "http/3 request finish failed") q.finish
      >> (failing read_error (codes "http/3 response headers failed") q.recv_response
          >>= λ response. insert_all lib response.1 q.no_headers >>= λ header.
              upstream_response_filter lib urls header ctx >>= λ filtered.
              q.write_header response.0 filtered >> ok (response.0, filtered))

  -- What went to the upstream and to the client, and how the exchange ends.
  pub record Exchanged : Type 0 where
    pub request : Option H3Request
    pub sent : List (List ℕ)
    pub header : Option (ℕ × Headers)
    pub relayed : Relayed

  abbrev broken_off : Option H3Request → List (List ℕ) → RequestContext → ProxyError → Exchanged
  broken_off request sent ctx e = record {
    request = request;
    sent = sent;
    header = none;
    relayed = record { body = []; ctx = ctx; result = err e };
  }

  unfoldable pub exchange_on : H3Request → RequestContext → Exchanged
  unfolding relay_header send_body relay_body
  exchange_on built ctx =
      let (sent, body_result) = send_body q.send_data q.request_body in
      elim (body_result >> relay_header ctx) [
        | err e ↦ broken_off (some built) sent ctx e
        | ok header ↦ record {
          request = some built;
          sent = sent;
          header = some header;
          relayed = relay_body q.turns q.ended ctx;
        }
      ]

  unfoldable pub proxy_request : Request Headers → UpstreamConfig → RequestContext → Exchanged
  unfolding open_stream exchange_on
  proxy_request request u ctx = elim (open_stream request u) [
    | err e ↦ broken_off none [] ctx e
    | ok built ↦ exchange_on built ctx
  ]

-- A chunk that is received, and that the client takes.
abbrev pub taken : List ℕ → Turn
taken chunk = record { received = ok chunk; written = ok tt }

filter-rewriting :
    (body : Option (List ℕ)) (end_of_stream : Bool) (ctx : RequestContext)
    (state : PathRewriteState)
    → ctx.path_rewrite ≡ some state
    → (let filtered = filter_body body end_of_stream state in
        ((upstream_response_body_filter body end_of_stream ctx).0 ≡ filtered.0)
        × ((upstream_response_body_filter body end_of_stream ctx).1.path_rewrite ≡ some filtered.1))
unfolding upstream_response_body_filter
filter-rewriting body end_of_stream ctx state rewriting = rw rewriting (refl, refl)

-- A body over HTTP/3 reaches the client as a body of the other protocols does: where every chunk is
-- received and the client takes every write, the client is sent what the filter makes of the chunks in turn.
pub relay_body-stream :
    (chunks : List (List ℕ)) (ctx : RequestContext) (state : PathRewriteState)
    → ctx.path_rewrite ≡ some state
    → ((relay_body (map taken chunks) (ok tt) ctx).body ≡ stream state chunks none)
      × ((relay_body (map taken chunks) (ok tt) ctx).result ≡ ok tt)
unfolding relay_body stream
relay_body-stream [] ctx state rewriting =
    let (same, _) = filter-rewriting none true ctx state rewriting in
    (append-nil _ ∙ ap (λ body. unwrap_or body []) same, refl)
relay_body-stream (c ∷ cs) ctx state rewriting =
    let (same, still) = filter-rewriting (some c) false ctx state rewriting in
    let ctx' = (upstream_response_body_filter (some c) false ctx).1 in
    let (body, result) = relay_body-stream cs ctx' (filter_body (some c) false state).1 still in
    (
      ap (λ b. unwrap_or b [] ++ (relay_body (map taken cs) (ok tt) ctx').body) same
          ∙ ap (λ rest. unwrap_or (filter_body (some c) false state).0 [] ++ rest) body,
      result,
    )

-- Where every chunk of a response body is received over HTTP/3 and the client takes every write, a
-- body that fits the limit is rewritten too: the client is sent the rewrite of all its bytes, however
-- the upstream cut it into chunks, and the relay succeeds.
pub relay_body-fits :
    (chunks : List (List ℕ)) (ctx : RequestContext) (state : PathRewriteState)
    → ctx.path_rewrite ≡ some state
    → Rewrites state
    → length state.buffer + length (concat chunks) ≤ max_body_bytes
    → ((relay_body (map taken chunks) (ok tt) ctx).body
        ≡ finished state.prefix (state.buffer ++ concat chunks))
      × ((relay_body (map taken chunks) (ok tt) ctx).result ≡ ok tt)
relay_body-fits chunks ctx state rewriting on fits =
    let (body, result) = relay_body-stream chunks ctx state rewriting in
    let all : whole chunks none ≡ concat chunks = append-nil (concat chunks) in
    (
      body
          ∙ stream-fits state chunks none on (rw all fits)
          ∙ ap (λ bytes. finished state.prefix (state.buffer ++ bytes)) all,
      result,
    )
