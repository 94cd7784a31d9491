-- ===== src/Acme/Challenges.antt =====
-- src/acme.rs: the store of HTTP-01 challenges, and src/acme_challenge.rs, which answers them. The
-- store is an association list; its lock is not modelled, since each access holds it to the end.
use konnector.Prelude.{
  ◌≡◌, refl, Bool, true, not, ◌&&◌, Option, none, some, List, [], ◌∷◌, ◌++◌, arith, Text, codes,
  str_eq, is_empty, strip_prefix, contains_char, option_filter, if◌then◌else◌, print_uint, length,
}
use konnector.Prelude.StringLaws.{str_eq_iff, str_eq_refl, strip_prefix-append}
use konnector.Session.{Session}
use konnector.Http.{Response}

abbrev pub challenge_prefix : Text
challenge_prefix = codes "/.well-known/acme-challenge/"

abbrev pub Challenges : Type 0
Challenges = List (Text × Text)

unfoldable pub challenge_response : Text → Challenges → Option Text
challenge_response token [] = none
challenge_response token ((t, key_auth) ∷ m) =
    if str_eq t token then some key_auth else challenge_response token m

unfoldable pub set_challenge : Text → Text → Challenges → Challenges
set_challenge token key_auth [] = (token, key_auth) ∷ []
set_challenge token key_auth ((t, k) ∷ m) =
    if str_eq t token then (t, key_auth) ∷ m else (t, k) ∷ set_challenge token key_auth m

unfoldable pub clear_challenge : Text → Challenges → Challenges
clear_challenge token [] = []
clear_challenge token ((t, k) ∷ m) =
    let rest = clear_challenge token m in if str_eq t token then rest else (t, k) ∷ rest

abbrev pub is_token : Text → Bool
is_token token = not (is_empty token) && not (contains_char token b'/')

unfoldable pub challenge_token_from_path : Text → Option Text
challenge_token_from_path path = option_filter is_token (strip_prefix path challenge_prefix)

abbrev text_plain : Text × Text
text_plain = (codes "content-type", codes "text/plain; charset=utf-8")

abbrev pub missing_challenge : Response
missing_challenge = record {
  status = 404;
  headers = text_plain ∷ (codes "content-length", codes "0") ∷ [];
  body = [];
}

abbrev pub answered_challenge : Text → Response
answered_challenge body = record {
  status = 200;
  headers =
      text_plain
      ∷ (codes "cache-control", codes "no-store")
      ∷ (codes "content-length", print_uint (length body))
      ∷ [];
  body = body;
}

-- `acme_challenge::respond`: the response, if the path is that of a challenge.
unfoldable pub respond : Challenges → Session → Option Response
respond store s = elim (challenge_token_from_path s.path) [
  | none ↦ none
  | some token ↦ elim (challenge_response token store) [
    | none ↦ some missing_challenge
    | some body ↦ some (answered_challenge body)
  ]
]

token-of_path :
    (token path : Text)
    → is_token token ≡ true
    → path ≡ challenge_prefix ++ token
    → challenge_token_from_path path ≡ some token
unfolding challenge_token_from_path
token-of_path token path named at =
    let stripped : strip_prefix path challenge_prefix ≡ some token =
      rw at (strip_prefix-append challenge_prefix token) in
    ground (arith, stripped, named)

-- Setting a token's answer changes the answer for that token and for no other.
pub challenge_response-set :
    (token other key_auth : Text) (m : Challenges)
    → challenge_response other (set_challenge token key_auth m)
      ≡ (if str_eq token other then some key_auth else challenge_response other m)
unfolding challenge_response set_challenge
challenge_response-set token other key_auth [] = refl
challenge_response-set token other key_auth ((t, k) ∷ m) = ground (
  arith,
  str_eq_iff t token,
  str_eq_iff t other,
  str_eq_iff token other,
  challenge_response-set token other key_auth m,
)

-- Clearing a token removes its answer and no other.
pub challenge_response-clear :
    (token other : Text) (m : Challenges)
    → challenge_response other (clear_challenge token m)
      ≡ (if str_eq token other then none else challenge_response other m)
unfolding challenge_response clear_challenge
challenge_response-clear token other [] = ground arith
challenge_response-clear token other ((t, k) ∷ m) = ground (
  arith,
  str_eq_iff t token,
  str_eq_iff t other,
  str_eq_iff token other,
  challenge_response-clear token other m,
)

-- While a challenge is set, a request for its token is answered with its key authorisation, and
-- once it is cleared with 404; the token is not empty and has no slash.
pub respond-challenge :
    (s : Session) (token key_auth : Text) (m : Challenges)
    → is_token token ≡ true
    → s.path ≡ challenge_prefix ++ token
    → (respond (set_challenge token key_auth m) s ≡ some (answered_challenge key_auth))
      × (respond (clear_challenge token (set_challenge token key_auth m)) s
          ≡ some missing_challenge)
unfolding respond
respond-challenge s token key_auth m named at =
    let known : challenge_token_from_path s.path ≡ some token =
      token-of_path token s.path named at in
    let here = str_eq_refl token in
    let set = challenge_response-set token token key_auth m in
    let cleared = challenge_response-clear token token (set_challenge token key_auth m) in
    (ground (arith, known, here, set), ground (arith, known, here, cleared))
