-- ===== src/Session.antt =====
-- What the handlers read of a pingora session, and src/websocket.rs. A header is looked up by its
-- lower-case name and is there only if its value is text (`get(..).and_then(to_str)`).
use konnector.Prelude.{
  Bool, true, false, Option, none, some, Text, codes, str_eq, trim, split, to_ascii_lowercase, any,
  if◌then◌else◌, not,
}

pub record Session : Type 0 where
  pub is_upgrade_req : Bool
  pub header : Text → Option Text
  pub method : Text
  pub path : Text
  pub query : Option Text
  pub authority : Option Text
  pub ssl_digest : Bool
  pub client_is_loopback : Bool

unfoldable pub eq_ignore_ascii_case : Text → Text → Bool
eq_ignore_ascii_case s t = str_eq (to_ascii_lowercase s) (to_ascii_lowercase t)

header_is : Option Text → (Text → Bool) → Bool
header_is none test = false
header_is (some value) test = test value

names_upgrade : Text → Bool
unfolding eq_ignore_ascii_case
names_upgrade part = eq_ignore_ascii_case (trim part) (codes "upgrade")

unfoldable pub is_upgrade_request : Session → Bool
unfolding header_is names_upgrade eq_ignore_ascii_case
is_upgrade_request s =
    if s.is_upgrade_req
    then true
    else if not (
        header_is (s.header (codes "upgrade"))
          (λ value. eq_ignore_ascii_case value (codes "websocket")))
    then false
    else header_is (s.header (codes "connection")) (λ value. any names_upgrade (split value b','))

-- domain_routing::session_is_https
abbrev pub session_is_https : Session → Bool
session_is_https s = s.ssl_digest
