-- ===== src/PathRewrite/Assets.antt =====
-- src/path_rewrite.rs: the links of a body, and which responses may be rewritten.
use konnector.Prelude.{
  Bool, false, ◌||◌, Option, none, some, List, [], ◌∷◌, ◌++◌, Text, codes, str_eq, is_some, trim,
  replace, split, if◌then◌else◌,
}
use konnector.Paths.Prefix.{bare}

-- The text between two marks: `href="`, the root, and what ends the match.
replacements : Text → List (Text × Text)
replacements base =
    let rooted = base ++ codes "/" in
    (codes "href=\"" ++ rooted, codes "href=\"/")
    ∷ (codes "href='" ++ rooted, codes "href='/")
    ∷ (codes "src=\"" ++ rooted, codes "src=\"/")
    ∷ (codes "src='" ++ rooted, codes "src='/")
    ∷ (codes "action=\"" ++ rooted, codes "action=\"/")
    ∷ (codes "action='" ++ rooted, codes "action='/")
    ∷ (codes "url(" ++ rooted, codes "url(/")
    ∷ (codes "url(\"" ++ rooted, codes "url(\"/")
    ∷ (codes "url('" ++ rooted, codes "url('/")
    ∷ (codes "<base href=\"" ++ rooted ++ codes "\"", codes "<base href=\"/\"")
    ∷ (codes "<base href='" ++ rooted ++ codes "'", codes "<base href='/")
    ∷ (codes "href=\"" ++ base ++ codes "\"", codes "href=\"/\"")
    ∷ (codes "href='" ++ base ++ codes "'", codes "href='/'")
    ∷ (codes "src=\"" ++ base ++ codes "\"", codes "src=\"/\"")
    ∷ (codes "src='" ++ base ++ codes "'", codes "src='/'")
    ∷ []

replace_all : List (Text × Text) → Text → Text
replace_all [] content = content
replace_all ((from, to) ∷ rest) content = replace_all rest (replace content from to)

unfoldable pub rewrite_prefixed_assets : Text → Text → Text
unfolding replacements replace_all bare
rewrite_prefixed_assets content base_path = replace_all (replacements (bare base_path)) content

is_rewritable_media : Text → Bool
is_rewritable_media media =
    str_eq media (codes "text/html")
    || str_eq media (codes "text/css")
    || str_eq media (codes "text/javascript")
    || str_eq media (codes "application/javascript")
    || str_eq media (codes "application/xhtml+xml")

first_part : List Text → Text
first_part [] = []
first_part (part ∷ parts) = part

-- `response_is_rewritable`, by the two headers that it reads.
unfoldable pub response_is_rewritable : Option Text → Option Text → Bool
unfolding is_rewritable_media first_part
response_is_rewritable content_encoding content_type =
    if is_some content_encoding then false else elim content_type [
      | none ↦ false
      | some value ↦ is_rewritable_media (trim (first_part (split value b';')))
    ]
