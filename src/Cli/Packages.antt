-- ===== src/Cli/Packages.antt =====
-- src/cli.rs: where a package comes from, and its installation on Unix. The GitHub API, the file
-- system and the commands are arguments.
use konnector.Prelude.{
  ◌≡◌, ◌⊎◌, Bool, true, not, ◌||◌, ◌&&◌, Option, none, some, List, [], ◌∷◌, ◌++◌, arith,
  if◌then◌else◌, Result, Checked, ok, err, Text, codes, str_eq, starts_with, ends_with, contains,
  is_some, Bool-cases, inl, inr,
}
use konnector.Prelude.StringLaws.{str_eq_refl}
use konnector.Prelude.Sorting.{mem}
use konnector.Cli.Release.{normalize_tag}

unfoldable pub is_local_package : (Text → Bool) → Text → Bool
unfolding ends_with
is_local_package exists reference =
    ends_with reference (codes ".tar.gz")
    || ends_with reference (codes ".tgz")
    || ends_with reference (codes ".deb")
    || ends_with reference (codes ".zip")
    || exists reference

unfoldable pub is_remote : Text → Bool
unfolding starts_with
is_remote source = starts_with source (codes "http://") || starts_with source (codes "https://")

-- `release` asks the GitHub API for the package of a path below the repository.
unfoldable pub resolve_release_source :
    (Text → Bool) → (Text → Result Text Text) → Option Text → Result Text Text
unfolding is_remote is_local_package normalize_tag
resolve_release_source exists release none = release (codes "/releases/latest")
resolve_release_source exists release (some reference) =
    if is_remote reference
    then ok reference
    else if is_local_package exists reference
    then ok reference
    else release (codes "/releases/tags/" ++ normalize_tag reference)

unfoldable pub is_deb_package : Text → Bool
unfolding ends_with contains
is_deb_package source =
    ends_with source (codes ".deb")
    || contains source (codes "/konnector_") && contains source (codes "_amd64.deb")

unfoldable pub is_zip_package : Text → Bool
unfolding ends_with contains
is_zip_package source =
    ends_with source (codes ".zip")
    || contains source (codes "windows") && ends_with source (codes ".zip")

pub data ReferenceError : Type 0 where
  missing_tag : ReferenceError
  unexpected : Text → ReferenceError

is_tag_option : Text → Bool
unfolding str_eq
is_tag_option value = str_eq value (codes "--tag") || str_eq value (codes "-t")

-- A value that stands alone, with the reference so far.
abbrev lone : Text → Option Text → Result ReferenceError (Option Text)
lone value none = ok (some value)
lone value (some reference) = err (unexpected value)

-- The loop over the arguments.
unfoldable pub reference_loop : List Text → Option Text → Result ReferenceError (Option Text)
unfolding is_tag_option
reference_loop [] reference = ok reference
reference_loop (value ∷ []) reference =
    if is_tag_option value then err missing_tag else lone value reference
reference_loop (value ∷ next ∷ rest) reference =
    let tagged = reference_loop rest (some next) in
    let later = reference_loop (next ∷ rest) (some value) in
    if is_tag_option value
    then tagged
    else if is_some reference
    then err (unexpected value)
    else later

unfoldable pub parse_release_reference : List Text → Result ReferenceError (Option Text)
unfolding reference_loop
parse_release_reference args = reference_loop args none

-- What dpkg answers the first and the second time, and apt-get.
pub record PackageTools : Type 0 where
  pub dpkg_first : Checked Text
  pub dpkg_again : Checked Text
  pub apt_fix : Checked Text

unfoldable pub install_deb_package : PackageTools → Checked Text
install_deb_package tools = elim tools.dpkg_first [
  | ok _ ↦ ok tt
  | err e ↦ elim tools.apt_fix [ err f ↦ err f | ok _ ↦ tools.dpkg_again ]
]

-- The way a package is installed.
pub data Installation : Type 0 where
  downloaded_deb local_deb archive : Text → Installation

unfoldable pub install_package : (Text → Bool) → Text → Installation
unfolding is_remote is_deb_package
install_package is_file source =
    if is_remote source || is_file source
    then (if is_deb_package source then downloaded_deb source else archive source)
    else if is_deb_package source
    then local_deb source
    else archive source

-- The service after an installation: whether it is there, and what its commands answer.
pub record ServiceAnswers : Type 0 where
  pub installed : Bool
  pub restart : Checked Text
  pub start : Checked Text

-- The restart of a service that is not installed, and the commands that may fail, are left out.
unfoldable pub finish_service_after_package : ServiceAnswers → Checked Text
finish_service_after_package a =
    if not a.installed then ok tt else elim a.restart [ ok _ ↦ ok tt | err e ↦ a.start ]

-- A reference that is read is one of the arguments, or the one that was read before.
reference_loop-mem :
    (args : List Text) (before : Option Text) (reference : Text)
    → reference_loop args before ≡ ok (some reference)
    → (before ≡ some reference) ⊎ (mem reference args ≡ true)
unfolding reference_loop
reference_loop-mem [] before reference h = inl (ground arith)
reference_loop-mem (value ∷ []) none reference h = inr (ground (arith, str_eq_refl value))
reference_loop-mem (value ∷ []) (some before) reference h = absurd (ground arith)
reference_loop-mem (value ∷ next ∷ rest) before reference h =
    elim (Bool-cases (is_tag_option value)) [
      | inl tag ↦ elim (reference_loop-mem rest (some next) reference (ground arith)) [
        | inl e ↦ inr (ground (arith, str_eq_refl next, e))
        | inr there ↦ inr (ground (arith, there))
      ]
      | inr plain ↦ elim (Bool-cases (is_some before)) [
        | inl two ↦ absurd (ground arith)
        | inr first ↦
            elim (reference_loop-mem (next ∷ rest) (some value) reference (ground arith)) [
              | inl e ↦ inr (ground (arith, str_eq_refl value, e))
              | inr there ↦ inr (ground (arith, there))
            ]
      ]
    ]

-- The release that is asked for on the command line is one of the arguments.
pub parse_release_reference-mem :
    (args : List Text) (reference : Text)
    → parse_release_reference args ≡ ok (some reference)
    → mem reference args ≡ true
unfolding parse_release_reference
parse_release_reference-mem args reference h = elim (reference_loop-mem args none reference h) [
  | inl e ↦ cc
  | inr there ↦ there
]
