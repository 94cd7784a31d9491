-- ===== src/Configs/Listen.antt =====
-- src/configs.rs: `ListenMode` and its deserialisation. `ListenField` is what serde hands over; an
-- error is a constructor in place of its message.
use konnector.Prelude.{
  ℕ, ◌≡◌, Bool, true, false, ◌||◌, ◌&&◌, not, List, [], ◌∷◌, arith, if◌then◌else◌, Result, ok, err,
  ◌>>=◌, Text, codes, str_eq, trim, to_ascii_lowercase, ◌==◌, >>=-eq-ok,
}

pub record ListenMode : Type 0 where
  pub http : Bool
  pub https : Bool

abbrev pub http_only : ListenMode
http_only = record { http = true; https = false }

abbrev pub https_only : ListenMode
https_only = record { http = false; https = true }

abbrev pub both : ListenMode
both = record { http = true; https = true }

unfoldable pub accepts : ListenMode → Bool → Bool
accepts m https = if https then m.https else m.http

pub data ListenField : Type 0 where
  name : Text → ListenField
  port : ℕ → ListenField
  items : List Text → ListenField
  object : Bool → Bool → ListenField

pub data ListenError : Type 0 where
  invalid_value : Text → ListenError
  invalid_port : ℕ → ListenError
  nothing_listed : ListenError
  nothing_enabled : ListenError

parse_token : Text → Result ListenError ListenMode
parse_token value =
    let token = to_ascii_lowercase (trim value) in
    if str_eq token (codes "both") || str_eq token (codes "all")
    then ok both
    else if str_eq token (codes "http") || str_eq token (codes "80")
    then ok http_only
    else if str_eq token (codes "https") || str_eq token (codes "443")
    then ok https_only
    else err (invalid_value token)

-- The loop over a list, with the two flags gathered so far.
collect : List Text → ListenMode → Result ListenError ListenMode
unfolding parse_token
collect [] seen = ok seen
collect (item ∷ rest) seen = parse_token item >>= λ m.
    collect rest (record { http = seen.http || m.http; https = seen.https || m.https })

require_any : ListenError → ListenMode → Result ListenError ListenMode
require_any e m = if not m.http && not m.https then err e else ok m

unfoldable pub deserialize_listen : ListenField → Result ListenError ListenMode
unfolding parse_token collect require_any
deserialize_listen (name value) = parse_token value
deserialize_listen (port n) =
    if n == 80 then ok http_only else if n == 443 then ok https_only else err (invalid_port n)
deserialize_listen (items tokens) =
    collect tokens (record { http = false; https = false }) >>= require_any nothing_listed
deserialize_listen (object http https) =
    require_any nothing_enabled (record { http = http; https = https })

abbrev pub IsEnabled : ListenMode → Type 0
IsEnabled m = (m.http || m.https) ≡ true

parse_token-IsEnabled : (t : Text) (m : ListenMode) → parse_token t ≡ ok m → IsEnabled m
unfolding parse_token
parse_token-IsEnabled t m h = ground arith

require_any-IsEnabled : (e : ListenError) (n m : ListenMode) → require_any e n ≡ ok m → IsEnabled m
unfolding require_any
require_any-IsEnabled e n m h = ground arith

-- Whatever the YAML holds, an accepted `listen` value enables at least one listener.
pub deserialize_listen-IsEnabled :
    (field : ListenField) (m : ListenMode) → deserialize_listen field ≡ ok m → IsEnabled m
unfolding deserialize_listen
deserialize_listen-IsEnabled (name value) m h = parse_token-IsEnabled value m h
deserialize_listen-IsEnabled (port n) m h = ground arith
deserialize_listen-IsEnabled (items tokens) m h =
    let (n, _, accepted) =
      >>=-eq-ok (collect tokens (record { http = false; https = false }))
        (require_any nothing_listed) h in
    require_any-IsEnabled nothing_listed n m accepted
deserialize_listen-IsEnabled (object http https) m h =
    require_any-IsEnabled nothing_enabled (record { http = http; https = https }) m h
