-- ===== src/Http.antt =====
-- What the handlers exchange with pingora: responses, errors, and the header of a request on its
-- way to an upstream. The header map is pingora's and the parser of a URI the http crate's: both are
-- interfaces, with the documented behaviour of a map.
use konnector.Prelude.{ℕ, ◌≡◌, Option, none, some, List, ◌∷◌, ◌++◌, Text, str_eq, if◌then◌else◌}

pub record Response : Type 0 where
  pub status : ℕ
  pub headers : List (Text × Text)
  pub body : Text

-- `ErrorSource`
pub data ErrorSource : Type 0 where
  upstream downstream internal unset : ErrorSource

-- `ErrorType`, as far as the program tells types apart
pub data ErrorType : Type 0 where
  http_status : ℕ → ErrorType
  internal_error connect_error read_error write_error other : ErrorType
  -- an index out of bounds, which stops the handler
  panic : ErrorType

pub record ProxyError : Type 0 where
  pub etype : ErrorType
  pub esource : ErrorSource
  pub context : Text

-- Error::explain
abbrev pub explain : ErrorType → Text → ProxyError
explain etype context = record { etype = etype; esource = ErrorSource.unset; context = context }

-- A parsed `Uri`: one that is only a path has no authority.
pub record Uri : Type 0 where
  pub path : Text
  pub query : Option Text
  pub authority : Option Text

-- A header map, the text of a header's value if it is one (`to_str`), and the parser of a URI.
pub record HttpLib : Type 1 where
  pub Headers : Type 0
  pub get : Headers → Text → Option Text
  pub to_str : Text → Option Text
  pub insert : Headers → Text → Text → Option Headers
  pub remove : Headers → Text → Headers
  pub parse_uri : Text → Option Uri
  pub get_insert :
      (h h' : Headers) (name value : Text)
      → insert h name value ≡ some h'
      → (other : Text) → get h' other ≡ (if str_eq name other then some value else get h other)
  pub get_remove :
      (h : Headers) (name other : Text)
      → get (remove h name) other ≡ (if str_eq name other then none else get h other)

-- RequestHeader
pub record Request (Headers : Type 0) : Type 0 where
  pub path : Text
  pub query : Option Text
  pub headers : Headers

-- A location or a URI with the query of the request behind it, if there is one.
abbrev pub with_query : Text → Option Text → Text
with_query uri none = uri
with_query uri (some query) = uri ++ b'?' ∷ query

-- `headers.get(name).and_then(|value| value.to_str().ok())`
abbrev pub get_str : (lib : HttpLib) → lib.Headers → Text → Option Text
get_str lib h name = elim (lib.get h name) [ none ↦ none | some value ↦ lib.to_str value ]
