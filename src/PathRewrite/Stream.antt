-- ===== src/PathRewrite/Stream.antt =====
-- What a client receives of a body that passes `filter_body` in chunks.
use konnector.Prelude.{
  ℕ, ◌≡◌, ◌≤◌, ◌<◌, ◌+◌, refl, sym, ap, ◌∙◌, Bool, true, false, Option, none, some, List, [], ◌∷◌,
  ◌++◌, arith, append_assoc, append-nil, Text, is_empty, length, length-append, unwrap_or,
}
use konnector.Prelude.{replace}
use konnector.Prelude.Utf8.{from_utf8, to_utf8}
use konnector.PathRewrite.Assets.{rewrite_prefixed_assets}
use konnector.Proxy.Runtime.{PathRewriteState}
use konnector.PathRewrite.Body.{max_body_bytes, rewritten_body, filter_body}

abbrev pub concat : List (List ℕ) → List ℕ
concat [] = []
concat (c ∷ cs) = c ++ concat cs

-- The bytes of all chunks in turn, and of the call that ends the stream: it has the last chunk, or
-- none.
unfoldable pub stream : PathRewriteState → List (List ℕ) → Option (List ℕ) → List ℕ
stream state [] last = unwrap_or (filter_body last true state).0 []
stream state (c ∷ cs) last =
    let (body, state') = filter_body (some c) false state in
    unwrap_or body [] ++ stream state' cs last

-- The bytes that an upstream sends.
abbrev pub whole : List (List ℕ) → Option (List ℕ) → List ℕ
whole cs last = concat cs ++ unwrap_or last []

-- A state that still rewrites.
abbrev pub Rewrites : PathRewriteState → Type 0
Rewrites state = (state.rewrite_body ≡ true) × (is_empty state.prefix ≡ false)

-- The buffer never grows beyond the limit.
pub filter_body-bounded :
    (state : PathRewriteState) (body : Option (List ℕ)) (end_of_stream : Bool)
    → length state.buffer ≤ max_body_bytes
    → length (filter_body body end_of_stream state).1.buffer ≤ max_body_bytes
unfolding filter_body
filter_body-bounded state none end_of_stream h = ground arith
filter_body-bounded state (some chunk) end_of_stream h =
    ground (arith, length-append state.buffer chunk)

-- A chunk that fits is taken: nothing is sent for it yet.
filter_body-takes :
    (state : PathRewriteState) (chunk : List ℕ)
    → Rewrites state
    → length state.buffer + length chunk ≤ max_body_bytes
    → filter_body (some chunk) false state
      ≡ (some [], record state { buffer = state.buffer ++ chunk })
unfolding filter_body
filter_body-takes state chunk (on, prefixed) fits = ground (arith, on, prefixed)

-- A chunk that does not fit is sent as it is, and the buffer is emptied.
filter_body-gives_up :
    (state : PathRewriteState) (chunk : List ℕ) (end_of_stream : Bool)
    → Rewrites state
    → max_body_bytes < length state.buffer + length chunk
    → filter_body (some chunk) end_of_stream state
      ≡ (some chunk, record state { rewrite_body = false; buffer = [] })
unfolding filter_body
filter_body-gives_up state chunk end_of_stream (on, prefixed) long = ground (arith, on, prefixed)

abbrev pub finished : Text → List ℕ → List ℕ
finished prefix [] = []
finished prefix (b ∷ bytes) = rewritten_body prefix (b ∷ bytes)

filter_body-end :
    (state : PathRewriteState) (bytes : List ℕ)
    → Rewrites state
    → state.buffer ≡ bytes
    → unwrap_or (filter_body none true state).0 [] ≡ finished state.prefix bytes
unfolding filter_body
filter_body-end state [] (on, prefixed) e = ground arith
filter_body-end state (b ∷ bytes) (on, prefixed) e = ground arith

-- The last chunk, where it fits, is taken before the buffer is sent.
filter_body-last :
    (state : PathRewriteState) (chunk bytes : List ℕ)
    → Rewrites state
    → length state.buffer + length chunk ≤ max_body_bytes
    → state.buffer ++ chunk ≡ bytes
    → unwrap_or (filter_body (some chunk) true state).0 [] ≡ finished state.prefix bytes
unfolding filter_body
filter_body-last state chunk [] (on, prefixed) fits e = ground (arith, on, prefixed, e)
filter_body-last state chunk (b ∷ bytes) (on, prefixed) fits e = ground (arith, on, prefixed, e)

stream-end :
    (state : PathRewriteState) (last : Option (List ℕ))
    → Rewrites state
    → length state.buffer + length (unwrap_or last []) ≤ max_body_bytes
    → stream state [] last ≡ finished state.prefix (state.buffer ++ unwrap_or last [])
unfolding stream
stream-end state none r fits =
    filter_body-end state state.buffer r refl
    ∙ ap (finished state.prefix) (sym (append-nil state.buffer))
stream-end state (some chunk) r fits =
    filter_body-last state chunk (state.buffer ++ chunk) r fits refl

stream-takes :
    (state : PathRewriteState) (chunk : List ℕ) (cs : List (List ℕ)) (last : Option (List ℕ))
    → Rewrites state
    → length state.buffer + length chunk ≤ max_body_bytes
    → stream state (chunk ∷ cs) last
      ≡ stream (record state { buffer = state.buffer ++ chunk }) cs last
unfolding stream
stream-takes state chunk cs last r fits = rw (filter_body-takes state chunk r fits)

length-whole :
    (c : List ℕ) (cs : List (List ℕ)) (last : Option (List ℕ))
    → length (whole (c ∷ cs) last) ≡ length c + length (whole cs last)
length-whole c cs last =
    ap length (append_assoc c (concat cs) (unwrap_or last [])) ∙ length-append c (whole cs last)

-- What the client receives of a body whose chunks fit the limit together is the rewrite of all its
-- bytes, however it was cut into chunks, and whether the stream ends with the last chunk or after it.
pub stream-fits :
    (state : PathRewriteState) (cs : List (List ℕ)) (last : Option (List ℕ))
    → Rewrites state
    → length state.buffer + length (whole cs last) ≤ max_body_bytes
    → stream state cs last ≡ finished state.prefix (state.buffer ++ whole cs last)
stream-fits state [] last r fits = stream-end state last r fits
stream-fits state (c ∷ cs) last r fits =
    let cut = length-whole c cs last in
    let joined = length-append state.buffer c in
    stream-takes state c cs last r (omega arith)
    ∙ stream-fits (record state { buffer = state.buffer ++ c }) cs last r (omega arith)
    ∙ ap (finished state.prefix) (
        append_assoc state.buffer c (whole cs last)
        ∙ ap (λ t. state.buffer ++ t) (sym (append_assoc c (concat cs) (unwrap_or last []))))

filter_body-off :
    (state : PathRewriteState) (body : Option (List ℕ)) (end_of_stream : Bool)
    → state.rewrite_body ≡ false
    → filter_body body end_of_stream state ≡ (body, state)
unfolding filter_body
filter_body-off state body end_of_stream off = ground arith

stream-passes :
    (state : PathRewriteState) (cs : List (List ℕ)) (last : Option (List ℕ))
    → state.rewrite_body ≡ false
    → stream state cs last ≡ whole cs last
unfolding stream
stream-passes state [] last off = rw (filter_body-off state last true off)
stream-passes state (c ∷ cs) last off = rw (filter_body-off state (some c) false off) (
    ap (λ t. c ++ t) (stream-passes state cs last off)
    ∙ sym (append_assoc c (concat cs) (unwrap_or last [])))

-- A chunk that does not fit, before the end of the stream and with it.
stream-gives_up :
    (state : PathRewriteState) (c : List ℕ) (rest : List (List ℕ)) (last : Option (List ℕ))
    → Rewrites state
    → max_body_bytes < length state.buffer + length c
    → (stream state (c ∷ rest) last ≡ c ++ whole rest last) × (stream state [] (some c) ≡ c)
unfolding stream
stream-gives_up state c rest last r long = (
  rw (filter_body-gives_up state c false r long) (
      ap (λ t. c ++ t)
        (stream-passes (record state { rewrite_body = false; buffer = [] }) rest last refl)),
  rw (filter_body-gives_up state c true r long) refl,
)

-- Where the chunks up to one fit the limit and that one does not, the client receives that chunk and
-- what follows it: the bytes before it are lost. So it is too where that one ends the stream.
pub stream-overflow :
    (state : PathRewriteState) (cs : List (List ℕ)) (c : List ℕ) (rest : List (List ℕ))
    (last : Option (List ℕ))
    → Rewrites state
    → length state.buffer + length (concat cs) ≤ max_body_bytes
    → max_body_bytes < length state.buffer + length (concat cs) + length c
    → (stream state (cs ++ c ∷ rest) last ≡ c ++ whole rest last) × (stream state cs (some c) ≡ c)
stream-overflow state [] c rest last r fits long = stream-gives_up state c rest last r (omega arith)
stream-overflow state (d ∷ cs) c rest last r fits long =
    let cut = length-append d (concat cs) in
    let joined = length-append state.buffer d in
    let (before, at_end) =
      stream-overflow (record state { buffer = state.buffer ++ d }) cs c rest last r (omega arith)
        (omega arith) in
    (
      stream-takes state d (cs ++ c ∷ rest) last r (omega arith) ∙ before,
      stream-takes state d cs (some c) r (omega arith) ∙ at_end,
    )

finished-invalid :
    (prefix : Text) (bytes : List ℕ) → from_utf8 bytes ≡ none → finished prefix bytes ≡ []
unfolding rewritten_body rewrite_prefixed_assets replace to_utf8
finished-invalid prefix [] e = refl
finished-invalid prefix (b ∷ bytes) e = rw e

-- A body that fits the limit and is not UTF-8 reaches the client as an empty body.
pub stream-not_utf8 :
    (state : PathRewriteState) (cs : List (List ℕ)) (last : Option (List ℕ))
    → Rewrites state
    → length state.buffer + length (whole cs last) ≤ max_body_bytes
    → from_utf8 (state.buffer ++ whole cs last) ≡ none
    → stream state cs last ≡ []
stream-not_utf8 state cs last r fits invalid =
    stream-fits state cs last r fits
    ∙ finished-invalid state.prefix (state.buffer ++ whole cs last) invalid
