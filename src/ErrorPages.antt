-- ===== src/ErrorPages.antt =====
-- src/error_pages.rs: the status and the page of a failed request.
use konnector.Prelude.{
  ℕ, ◌≡◌, ◌≢◌, refl, Bool, true, false, ◌&&◌, [], ◌∷◌, ◌++◌, Option, none, some, arith, Text, codes,
  if◌then◌else◌, leb, ltb, ◌==◌, length, print_uint,
}
use konnector.Http.{
  Response, ProxyError, ErrorType, http_status, ErrorSource, upstream, downstream, internal, unset,
}

status_of_source : ErrorSource → ℕ
status_of_source upstream = 502
status_of_source downstream = 0
status_of_source _ = 500

status_of_type : ErrorType → ErrorSource → ℕ
status_of_type (http_status status) source = status
status_of_type _ source = status_of_source source

unfoldable pub status_for : ProxyError → ℕ
unfolding status_of_type status_of_source
status_for e = status_of_type e.etype e.esource

unfoldable pub copy_for : ℕ → Text × Text
copy_for status =
    if status == 404
    then (codes "Page not found", codes "The requested page could not be found.")
    else if leb 502 status && leb status 504
    then (codes "Service temporarily unavailable", codes "Please try again in a few moments.")
    else (codes "Something went wrong", codes "Please try again later.")

page : Text → Text → ℕ → Text
page title message status =
    codes "<!doctype html><html lang=\"en\"><head><meta charset=\"utf-8\">"
    ++ codes "<meta name=\"viewport\" content=\"width=device-width,initial-scale=1\">"
    ++ codes "<title>"
    ++ title
    ++ codes "</title></head><body style=\"font-family:sans-serif;max-width:720px;"
    ++ codes "margin:5rem auto;padding:0 1rem\"><h1>"
    ++ title
    ++ codes "</h1><p>"
    ++ message
    ++ codes "</p><small>Error "
    ++ print_uint status
    ++ codes "</small></body></html>"

-- The page is ASCII, so its bytes are its characters.
unfoldable pub respond : ℕ → Response
unfolding copy_for page
respond status =
    let (title, message) = copy_for status in
    let body = page title message status in
    record {
      status = status;
      headers =
          (codes "content-type", codes "text/html; charset=utf-8")
          ∷ (codes "cache-control", codes "no-store")
          ∷ (codes "content-length", print_uint (length body))
          ∷ [];
      body = body;
    }

-- `respond_to_proxy_failure`: the page that is sent, if any, and the code that is reported.
unfoldable pub respond_to_proxy_failure : ProxyError → Option Response × ℕ
unfolding status_for
respond_to_proxy_failure e =
    (if ltb 0 (status_for e) then some (respond (status_for e)) else none, status_for e)

abbrev is_status : ErrorType → Bool
is_status (http_status n) = true
is_status _ = false

-- The status that a failure is reported with, by the side that caused it.
abbrev pub expected_status : ErrorSource → ℕ
expected_status upstream = 502
expected_status downstream = 0
expected_status internal = 500
expected_status unset = 500

status_for_source :
    (e : ProxyError) → is_status e.etype ≡ false → status_for e ≡ expected_status e.esource
unfolding status_for
status_for_source e h = ground arith

-- A failure whose type is no HTTP status is reported as 502 if the upstream caused it, as 0 if the
-- client went away, and otherwise as 500; a page with the reported status is sent, but for the
-- client that went away, which gets none.
pub respond_to_proxy_failure_lem :
    (e : ProxyError)
    → is_status e.etype ≡ false
    → ((respond_to_proxy_failure e).1 ≡ expected_status e.esource)
      × ((e.esource ≡ downstream) → (respond_to_proxy_failure e).0 ≡ none)
      × ((e.esource ≢ downstream)
          → (respond_to_proxy_failure e).0 ≡ some (respond (expected_status e.esource)))
unfolding respond_to_proxy_failure
respond_to_proxy_failure_lem e h =
    let known = status_for_source e h in
    (known, λ d. ground (arith, known), λ d. sent e.esource d known)
  where
    sent :
        (source : ErrorSource)
        → source ≢ downstream
        → status_for e ≡ expected_status source
        → (respond_to_proxy_failure e).0 ≡ some (respond (expected_status source))
    sent upstream d k = rw k
    sent downstream d k = absurd (d refl)
    sent internal d k = rw k
    sent unset d k = rw k
