-- ===== src/PathRewrite/Body.antt =====
-- src/path_rewrite.rs: the filters of a response, its header and the chunks of its body.
use konnector.Prelude.{
  ℕ, ◌+◌, ◌*◌, Bool, false, not, ◌||◌, ◌&&◌, Option, none, some, List, [], ◌++◌, Text, codes,
  is_empty, str_eq, if◌then◌else◌, ltb, length, unwrap_or, Result, ok, ◌>>=◌,
}
use konnector.Prelude.Utf8.{from_utf8, to_utf8}
use konnector.Http.{HttpLib, ProxyError, get_str}
use konnector.Forwarding.{insert_header}
use konnector.Proxy.Runtime.{PathRewriteState, RequestContext}
use konnector.PathRewrite.Location.{UrlLib, rewrite_location_header}
use konnector.PathRewrite.Assets.{rewrite_prefixed_assets, response_is_rewritable}

abbrev pub max_body_bytes : ℕ
max_body_bytes = 10 * 1024 * 1024

-- The rewritten body: a body that is not UTF-8 is read as an empty text.
unfoldable pub rewritten_body : Text → List ℕ → List ℕ
rewritten_body prefix bytes =
    to_utf8 (rewrite_prefixed_assets (unwrap_or (from_utf8 bytes) []) prefix)

-- The end of a call, on the body as the chunk was taken out of it.
finish : Option (List ℕ) → Bool → PathRewriteState → Option (List ℕ) × PathRewriteState
finish body end_of_stream state =
    if end_of_stream && not (is_empty state.buffer)
    then (some (rewritten_body state.prefix state.buffer), record state { buffer = [] })
    else (body, state)

-- A chunk moves into the buffer, or, if the buffer would grow too long, the rewrite is given up.
take_chunk : List ℕ → Bool → PathRewriteState → Option (List ℕ) × PathRewriteState
unfolding finish
take_chunk chunk end_of_stream state =
    if ltb max_body_bytes (length state.buffer + length chunk)
    then (some chunk, record state { rewrite_body = false; buffer = [] })
    else finish (some []) end_of_stream (record state { buffer = state.buffer ++ chunk })

unfoldable pub filter_body :
    Option (List ℕ) → Bool → PathRewriteState → Option (List ℕ) × PathRewriteState
unfolding finish take_chunk
filter_body body end_of_stream state =
    if not state.rewrite_body || is_empty state.prefix then (body, state) else elim body [
      | none ↦ finish none end_of_stream state
      | some chunk ↦ take_chunk chunk end_of_stream state
    ]

-- `upstream_response_body_filter`: the body and the context that it leaves.
unfoldable pub upstream_response_body_filter :
    Option (List ℕ) → Bool → RequestContext → Option (List ℕ) × RequestContext
unfolding filter_body
upstream_response_body_filter body end_of_stream ctx = elim ctx.path_rewrite [
  | none ↦ (body, ctx)
  | some state ↦
      let (body', state') = filter_body body end_of_stream state in
      (body', record ctx { path_rewrite = some state' })
]

module _ (lib : HttpLib) (urls : UrlLib) where
  open lib use {Headers, get, remove}

  rewrite_location : PathRewriteState → Headers → Result ProxyError Headers
  rewrite_location state h = elim (get_str lib h (codes "location")) [
    | none ↦ ok h
    | some location ↦
        let rewritten = rewrite_location_header urls location state in
        if str_eq rewritten location then ok h else insert_header lib h (codes "location") rewritten
  ]

  chunk_body : PathRewriteState → Headers → Result ProxyError Headers
  chunk_body state h =
      if state.rewrite_body
        && response_is_rewritable (get h (codes "content-encoding"))
            (get_str lib h (codes "content-type"))
      then insert_header lib (remove h (codes "content-length")) (codes "transfer-encoding")
          (codes "chunked")
      else ok h

  -- `upstream_response_filter`, on the headers of the response; names are in lower case.
  unfoldable pub upstream_response_filter : Headers → RequestContext → Result ProxyError Headers
  unfolding rewrite_location chunk_body insert_header
  upstream_response_filter h ctx = elim ctx.path_rewrite [
    | none ↦ ok h
    | some state ↦ rewrite_location state h >>= chunk_body state
  ]
