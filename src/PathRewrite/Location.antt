-- ===== src/PathRewrite/Location.antt =====
-- src/path_rewrite.rs: what is rewritten, and the Location header. The url crate is an argument.
use konnector.Prelude.{
  ◌≡◌, refl, Bool, not, ◌||◌, ◌&&◌, Option, none, some, List, [], ◌∷◌, ◌++◌, arith, Text, codes,
  str_eq, is_empty, strip_prefix, trim, replace, any, if◌then◌else◌, unwrap_or, get_elem?,
  option_filter, ap, length, length-append, Bool-cases, inl, inr,
}
use konnector.Prelude.StringLaws.{strip_prefix-append, str_eq-eq}
use konnector.Session.{Session}
use konnector.Prelude.Sorting.{str_le}
use konnector.Configs.Types.{UpstreamConfig}
use konnector.Forwarding.{public_origin}
use konnector.Paths.Prefix.{bare}
use konnector.Proxy.Runtime.{SiteRuntime, RequestContext, PathRewriteState}
use konnector.Upstreams.Selection.{selected_upstream}

unfoldable pub active_prefix : UpstreamConfig → Option Text
active_prefix u =
    let prefix = trim u.base_path in
    if is_empty prefix || str_eq prefix (codes "/") then none else some (bare prefix)

-- `<=` of `String`
-- `sort` and `dedup` of a vector of at most two.
sort_dedup : Text → Option Text → List Text
sort_dedup a none = a ∷ []
sort_dedup a (some b) = if str_eq a b then a ∷ [] else if str_le a b then a ∷ b ∷ [] else b ∷ a ∷ []

unfoldable pub upstream_origins_for : UpstreamConfig → List Text
unfolding sort_dedup str_le
upstream_origins_for u =
    let scheme = if u.tls then codes "https://" else codes "http://" in
    sort_dedup (scheme ++ u.address) (elim (option_filter (λ host. not (is_empty host)) u.host) [
      | none ↦ none
      | some host ↦ some (scheme ++ host)
    ])

unfoldable pub location_rewrite_needed : Text → Text → Bool
location_rewrite_needed upstream_origin public = not (str_eq (bare upstream_origin) (bare public))

prepare_for : Session → SiteRuntime → UpstreamConfig → Option PathRewriteState
prepare_for s site u =
    let prefix = unwrap_or (active_prefix u) [] in
    let origins = upstream_origins_for u in
    let public = public_origin s site in
    if not (any (λ origin. location_rewrite_needed origin public) origins) && is_empty prefix
    then none
    else some (record {
      prefix = prefix;
      rewrite_body = not (is_empty prefix);
      buffer = [];
      upstream_origins = origins;
      public_origin = public;
    })

-- `prepare`: an early return leaves the context as it is.
unfoldable pub prepare : Session → RequestContext → List SiteRuntime → RequestContext
unfolding prepare_for active_prefix upstream_origins_for location_rewrite_needed
prepare s ctx sites = elim ctx.site [
  | none ↦ ctx
  | some index ↦ elim (get_elem? sites index) [
    | none ↦ ctx
    | some site ↦ elim (selected_upstream ctx site) [
      | none ↦ ctx
      | some u ↦ elim (prepare_for s site u) [
        | none ↦ ctx
        | some state ↦ record ctx { path_rewrite = some state }
      ]
    ]
  ]
]

-- url::Url: parsing, the path, and the text with another path.
pub record UrlLib : Type 1 where
  pub Url : Type 0
  pub parse : Text → Option Url
  pub path : Url → Text
  pub with_path : Url → Text → Text

-- `if rest.is_empty() { "/" } else { rest }`
abbrev pub or_root : Text → Text
or_root rest = if is_empty rest then codes "/" else rest

nil_of_append : (s t : Text) → s ++ t ≡ s → t ≡ []
nil_of_append s [] e = refl
nil_of_append s (c ∷ t) e = absurd (omega (arith, length-append s (c ∷ t), ap length e))

module _ (lib : UrlLib) where
  rewrite_url : lib.Url → Text → Text → Text
  rewrite_url url location base = elim (strip_prefix (lib.path url) base) [
    | none ↦ location
    | some rest ↦ lib.with_path url (or_root rest)
  ]

  rewrite_relative : Text → Text → Text
  rewrite_relative location base =
      if str_eq location base
      then codes "/"
      else elim (strip_prefix location base) [ none ↦ location | some rest ↦ or_root rest ]

  unfoldable pub rewrite_base_path : Text → Text → Text
  unfolding rewrite_url rewrite_relative
  rewrite_base_path location base_path = elim (lib.parse location) [
    | some url ↦ rewrite_url url location (bare base_path)
    | none ↦ rewrite_relative location (bare base_path)
  ]

  -- The loop over the upstream's origins.
  replace_origins : List Text → Text → Text → Text
  replace_origins [] public location = location
  replace_origins (origin ∷ origins) public location =
      replace_origins origins public
        (if location_rewrite_needed origin public then replace location origin public else location)

  unfoldable pub rewrite_location_header : Text → PathRewriteState → Text
  unfolding replace_origins rewrite_base_path
  rewrite_location_header location state =
      let rewritten = replace_origins state.upstream_origins state.public_origin location in
      if is_empty state.prefix then rewritten else rewrite_base_path rewritten state.prefix

  -- A relative location below the base path loses the base path, whatever follows it: also where
  -- the base is not followed by a slash, and the result then does not start with one.
  pub rewrite_base_path-relative :
      (base rest : Text)
      → bare base ≡ base
      → lib.parse (base ++ rest) ≡ none
      → rewrite_base_path (base ++ rest) base ≡ or_root rest
  unfolding rewrite_base_path
  rewrite_base_path-relative base rest stem relative =
      elim (Bool-cases (str_eq (base ++ rest) base)) [
        | inl same ↦
            let e : rest ≡ [] = nil_of_append base rest (str_eq-eq (base ++ rest) base same) in
            ground (arith, stem, relative, e)
        | inr other ↦ ground (arith, stem, relative, strip_prefix-append base rest)
      ]
