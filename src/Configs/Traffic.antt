-- ===== src/Configs/Traffic.antt =====
-- src/configs.rs: `TrafficMode` and its deserialisation. `TrafficField` is what serde hands over; an
-- error is a constructor in place of its message.
use konnector.Prelude.{
  ◌≡◌, Bool, true, false, ◌||◌, ◌&&◌, not, List, [], ◌∷◌, arith, if◌then◌else◌, Result, ok, err,
  ◌>>=◌, >>=-eq-ok, Text, codes, str_eq, trim, to_ascii_lowercase,
}

pub record TrafficMode : Type 0 where
  pub http : Bool
  pub websocket : Bool

abbrev pub http_only : TrafficMode
http_only = record { http = true; websocket = false }

abbrev pub websocket_only : TrafficMode
websocket_only = record { http = false; websocket = true }

abbrev pub both : TrafficMode
both = record { http = true; websocket = true }

unfoldable pub accepts : TrafficMode → Bool → Bool
accepts m websocket = if websocket then m.websocket else m.http

pub data TrafficField : Type 0 where
  name : Text → TrafficField
  items : List Text → TrafficField
  object : Bool → Bool → TrafficField

pub data TrafficError : Type 0 where
  invalid_value : Text → TrafficError
  nothing_listed : TrafficError
  nothing_enabled : TrafficError

parse_token : Text → Result TrafficError TrafficMode
parse_token value =
    let token = to_ascii_lowercase (trim value) in
    if str_eq token (codes "both") || str_eq token (codes "all")
    then ok both
    else if str_eq token (codes "http")
        || str_eq token (codes "website")
        || str_eq token (codes "web")
    then ok http_only
    else if str_eq token (codes "websocket")
        || str_eq token (codes "websockets")
        || str_eq token (codes "ws")
        || str_eq token (codes "wss")
    then ok websocket_only
    else err (invalid_value token)

-- The loop over a list, with the two flags gathered so far.
collect : List Text → TrafficMode → Result TrafficError TrafficMode
unfolding parse_token
collect [] seen = ok seen
collect (item ∷ rest) seen = parse_token item >>= λ m.
    collect rest (record { http = seen.http || m.http; websocket = seen.websocket || m.websocket })

require_any : TrafficError → TrafficMode → Result TrafficError TrafficMode
require_any e m = if not m.http && not m.websocket then err e else ok m

unfoldable pub deserialize_traffic : TrafficField → Result TrafficError TrafficMode
unfolding parse_token collect require_any
deserialize_traffic (name value) = parse_token value
deserialize_traffic (items tokens) =
    collect tokens (record { http = false; websocket = false }) >>= require_any nothing_listed
deserialize_traffic (object http websocket) =
    require_any nothing_enabled (record { http = http; websocket = websocket })

abbrev pub IsEnabled : TrafficMode → Type 0
IsEnabled m = (m.http || m.websocket) ≡ true

parse_token-IsEnabled : (t : Text) (m : TrafficMode) → parse_token t ≡ ok m → IsEnabled m
unfolding parse_token
parse_token-IsEnabled t m h = ground arith

require_any-IsEnabled :
    (e : TrafficError) (n m : TrafficMode) → require_any e n ≡ ok m → IsEnabled m
unfolding require_any
require_any-IsEnabled e n m h = ground arith

-- Whatever the YAML holds, an accepted `traffic` value enables at least one kind of request.
pub deserialize_traffic-IsEnabled :
    (field : TrafficField) (m : TrafficMode) → deserialize_traffic field ≡ ok m → IsEnabled m
unfolding deserialize_traffic
deserialize_traffic-IsEnabled (name value) m h = parse_token-IsEnabled value m h
deserialize_traffic-IsEnabled (items tokens) m h =
    let (n, _, accepted) =
      >>=-eq-ok (collect tokens (record { http = false; websocket = false }))
        (require_any nothing_listed) h in
    require_any-IsEnabled nothing_listed n m accepted
deserialize_traffic-IsEnabled (object http websocket) m h =
    require_any-IsEnabled nothing_enabled (record { http = http; websocket = websocket }) m h
