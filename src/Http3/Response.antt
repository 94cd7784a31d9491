-- ===== src/Http3/Response.antt =====
-- src/http3.rs: `to_response_header`, the headers of a response over HTTP/3 that the client is sent.
-- Names are in lower case; a map is iterated value by value, with the name of each.
use konnector.Prelude.{
  ◌≡◌, refl, sym, ap, ◌∙◌, Bool, true, false, Option, none, some, List, [], ◌∷◌, arith,
  if◌then◌else◌, unwrap_or, Result, ok, ◌>>=◌, >>=-eq-ok, Text, str_eq, Option-cases, inl, inr,
}
use konnector.Prelude.StringLaws.{str_eq-eq}
use konnector.Http.{HttpLib, ProxyError}
use konnector.Forwarding.{insert_header}
use konnector.Http3.Headers.{is_hop_by_hop}

-- The last value of a name.
abbrev pub last_value : Text → List (Text × Text) → Option Text
last_value name [] = none
last_value name ((n, value) ∷ rest) =
    let later = last_value name rest in
    if str_eq n name then some (unwrap_or later value) else later

module _ (lib : HttpLib) where
  open lib use {Headers}

  -- One turn of the loop, by whether the name is hop-by-hop.
  unfoldable pub insert_unless : Bool → Text → Text → Headers → Result ProxyError Headers
  unfolding insert_header
  insert_unless true name value h = ok h
  insert_unless false name value h = insert_header lib h name value

  -- `to_response_header`, from the pairs of the response and an empty map.
  unfoldable pub insert_all : List (Text × Text) → Headers → Result ProxyError Headers
  unfolding is_hop_by_hop insert_unless
  insert_all [] h = ok h
  insert_all ((name, value) ∷ rest) h =
      insert_unless (is_hop_by_hop name) name value h >>= insert_all rest

-- The values of a name that is left with the last value of the response, if it has one.
abbrev pub only_last : Option Text → List Text → List Text
only_last none earlier = earlier
only_last (some value) earlier = value ∷ []

-- What a turn of the loop and the rest of it come to for one name: `earlier` are the values before
-- the turn, `now` those after it, and `last` the last one of the rest.
turn-last :
    (n name value : Text) (drops dropped : Bool) (earlier now : List Text) (last : Option Text)
    → (str_eq n name ≡ true → drops ≡ dropped)
    → now ≡ (if drops then earlier else if str_eq n name then value ∷ [] else earlier)
    → (if dropped then now else only_last last now) ≡ (
        if dropped
        then earlier
        else only_last (if str_eq n name then some (unwrap_or last value) else last) earlier)
turn-last n name value true true earlier now last alike e = e
turn-last n name value true false earlier now none alike e = ground (arith, alike, e)
turn-last n name value true false earlier now (some l) alike e = ground (arith, alike, e)
turn-last n name value false true earlier now last alike e = ground (arith, alike, e)
turn-last n name value false false earlier now none alike e = ground (arith, alike, e)
turn-last n name value false false earlier now (some l) alike e = ground (arith, alike, e)

-- `get_all` of a header map, and that an insertion replaces every value of its name.
module _ (lib : HttpLib) (get_all : lib.Headers → Text → List Text)
    (get_all_insert : (h h' : lib.Headers) (name value : Text)
      → lib.insert h name value ≡ some h'
      → (other : Text)
      → get_all h' other ≡ (if str_eq name other then value ∷ [] else get_all h other)) where
  open lib use {Headers, insert}

  insert_header-get_all :
      (h : Headers) (name value : Text) (after : Headers) (other : Text)
      → insert_header lib h name value ≡ ok after
      → get_all after other ≡ (if str_eq name other then value ∷ [] else get_all h other)
  unfolding insert_header
  insert_header-get_all h name value after other e = elim (Option-cases (insert h name value)) [
    | inl failed ↦ absurd (ground (arith, failed))
    | inr (h', done) ↦ ground (arith, done, get_all_insert h h' name value done other)
  ]

  insert_unless-get_all :
      (drops : Bool) (name value : Text) (h after : Headers) (other : Text)
      → insert_unless lib drops name value h ≡ ok after
      → get_all after other ≡ (
          if drops
          then get_all h other
          else if str_eq name other
          then value ∷ []
          else get_all h other)
  unfolding insert_unless
  insert_unless-get_all true name value h after other e =
      let same : h ≡ after = cc in ap (λ g. get_all g other) (sym same)
  insert_unless-get_all false name value h after other e =
      insert_header-get_all h name value after other e

  -- Of every name that is not hop-by-hop and that the upstream's response has, the response to the
  -- client has one value only: the last one of the upstream's, and those before it are lost.
  pub insert_all-last :
      (pairs : List (Text × Text)) (h after : Headers) (name : Text)
      → insert_all lib pairs h ≡ ok after
      → get_all after name ≡ (
          if is_hop_by_hop name
          then get_all h name
          else only_last (last_value name pairs) (get_all h name))
  unfolding insert_all
  insert_all-last [] h after name e =
      let same : h ≡ after = cc in
      ap (λ g. get_all g name) (sym same) ∙ by_name (is_hop_by_hop name)
    where
      by_name : (b : Bool) → get_all h name ≡ (if b then get_all h name else get_all h name)
      by_name true = refl
      by_name false = refl
  insert_all-last ((n, value) ∷ rest) h after name e =
      let (now, turned, later) =
        >>=-eq-ok (insert_unless lib (is_hop_by_hop n) n value h) (insert_all lib rest) e in
      insert_all-last rest now after name later
      ∙ turn-last n name value (is_hop_by_hop n) (is_hop_by_hop name) (get_all h name)
          (get_all now name) (last_value name rest)
          (λ same. ap is_hop_by_hop (str_eq-eq n name same))
          (insert_unless-get_all (is_hop_by_hop n) n value h now name turned)
