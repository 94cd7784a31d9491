-- ===== src/Cli/Release.antt =====
-- src/cli.rs: the tags of releases, the repository, and the package of a release that is chosen. A
-- release is what the GitHub API answers.
use konnector.Prelude.{
  ◌≡◌, refl, sym, Bool, true, ◌&&◌, Option, none, some, List, [], ◌∷◌, ◌++◌, arith, if◌then◌else◌,
  Result, ok, err, Text, codes, str_eq, trim, trim_start_matches, trim_end_matches, starts_with,
  ends_with, contains, strip_prefix, filter, find, ◌==◌, map, Option-cases, Bool-cases, inl, inr,
  find-passes, ◌⊎◌,
}

pub record GithubAsset : Type 0 where
  pub name : Text
  pub browser_download_url : Text

pub record GithubRelease : Type 0 where
  pub tag_name : Text
  pub assets : List GithubAsset

unfoldable pub normalize_tag : Text → Text
unfolding trim starts_with
normalize_tag text = let tag = trim text in if starts_with tag (codes "v") then tag else b'v' ∷ tag

-- Every leading `v` is dropped.
unfoldable pub tag_version : Text → Text
unfolding normalize_tag trim_start_matches
tag_version tag = trim_start_matches (λ c. c == b'v') (normalize_tag tag)

-- `trim_end_matches(".git")`, which takes every one off.
unfoldable pub trim_git : Text → Text
unfolding str_eq
trim_git [] = []
trim_git (c ∷ name) =
    let rest = trim_git name in if str_eq (c ∷ rest) (codes ".git") then [] else c ∷ rest

unfoldable pub normalize_github_repo : Text → Text
unfolding trim_git trim trim_end_matches strip_prefix
normalize_github_repo text =
    let value = trim_end_matches (λ c. c == b'/') (trim text) in
    elim (strip_prefix value (codes "https://github.com/")) [
      | some rest ↦ trim_git rest
      | none ↦ elim (strip_prefix value (codes "http://github.com/")) [
        | some rest ↦ trim_git rest
        | none ↦ elim (strip_prefix value (codes "github.com/")) [
          | some rest ↦ trim_git rest
          | none ↦ trim_git value
        ]
      ]
    ]

pub data PackageError : Type 0 where
  mismatched_package : Text → Text → PackageError
  several_packages : List Text → PackageError
  no_package : PackageError

unfoldable pub is_deb_asset : GithubAsset → Bool
unfolding starts_with ends_with
is_deb_asset asset =
    starts_with asset.name (codes "konnector_") && ends_with asset.name (codes "_amd64.deb")

unfoldable pub is_tarball : GithubAsset → Bool
unfolding starts_with ends_with
is_tarball asset =
    starts_with asset.name (codes "konnector-v") && ends_with asset.name (codes ".tar.gz")

unfoldable pub deb_prefix : GithubRelease → Text
unfolding tag_version
deb_prefix release = codes "konnector_" ++ tag_version release.tag_name ++ codes "-"

abbrev asset_url : Option GithubAsset → Result PackageError Text
asset_url none = err no_package
asset_url (some asset) = ok asset.browser_download_url

-- No Debian package has the version of the tag: what that comes to, by the packages there are.
unfoldable pub without_match : GithubRelease → List GithubAsset → Result PackageError Text
unfolding is_tarball deb_prefix
without_match release [] = asset_url (find is_tarball release.assets)
without_match release (asset ∷ []) = err (mismatched_package asset.name (deb_prefix release))
without_match release (a ∷ b ∷ more) =
    err (several_packages (map (λ asset. asset.name) (a ∷ b ∷ more)))

unfoldable pub unix_release_package_url : GithubRelease → Result PackageError Text
unfolding is_deb_asset deb_prefix starts_with without_match
unix_release_package_url release =
    let deb_assets = filter is_deb_asset release.assets in
    elim (find (λ asset. starts_with asset.name (deb_prefix release)) deb_assets) [
      | some asset ↦ ok asset.browser_download_url
      | none ↦ without_match release deb_assets
    ]

-- The first asset of one of the names, in the order of the names.
first_named : List Text → List GithubAsset → Option GithubAsset
unfolding str_eq
first_named [] assets = none
first_named (name ∷ names) assets = elim (find (λ asset. str_eq asset.name name) assets) [
  | some asset ↦ some asset
  | none ↦ first_named names assets
]

unfoldable pub is_windows_asset : GithubAsset → Bool
unfolding ends_with contains
is_windows_asset asset =
    ends_with asset.name (codes ".zip")
    && contains asset.name (codes "windows")
    && contains asset.name (codes "konnector")

unfoldable pub windows_release_package_url : GithubRelease → Result PackageError Text
unfolding first_named is_windows_asset normalize_tag tag_version
windows_release_package_url release =
    let tag = normalize_tag release.tag_name in
    let preferred =
      (codes "konnector-" ++ tag ++ codes "-windows-x86_64.zip")
      ∷ (codes "konnector-" ++ tag ++ codes "-windows-amd64.zip")
      ∷ (codes "konnector_" ++ tag_version release.tag_name ++ codes "-windows-x86_64.zip")
      ∷ [] in
    elim (first_named preferred release.assets) [
      | some asset ↦ ok asset.browser_download_url
      | none ↦ asset_url (find is_windows_asset release.assets)
    ]

-- An element of a list with its place.
abbrev pub Listed : GithubAsset → List GithubAsset → Type 0
Listed asset [] = ⊥
Listed asset (a ∷ assets) = (asset ≡ a) ⊎ Listed asset assets

find-Listed :
    (p q : GithubAsset → Bool) (assets : List GithubAsset) (asset : GithubAsset)
    → find p (filter q assets) ≡ some asset
    → Listed asset assets × (q asset ≡ true)
find-Listed p q [] asset h = cc
find-Listed p q (a ∷ assets) asset h = elim (Bool-cases (q a)) [
  | inr out ↦ let (there, kept) = find-Listed p q assets asset (ground arith) in (inr there, kept)
  | inl kept ↦ elim (Bool-cases (p a)) [
    | inl found ↦ let same : a ≡ asset = ground arith in (inl (sym same), rw (← same) kept)
    | inr not_yet ↦
        let (there, also) = find-Listed p q assets asset (ground arith) in (inr there, also)
  ]
]

find-Listed_all :
    (p : GithubAsset → Bool) (assets : List GithubAsset) (asset : GithubAsset)
    → find p assets ≡ some asset
    → Listed asset assets × (p asset ≡ true)
find-Listed_all p [] asset h = cc
find-Listed_all p (a ∷ assets) asset h = elim (Bool-cases (p a)) [
  | inl found ↦ let same : a ≡ asset = ground arith in (inl (sym same), rw (← same) found)
  | inr not_yet ↦
      let (there, also) = find-Listed_all p assets asset (ground arith) in (inr there, also)
]

-- What an accepted package is: a Debian package of the version of the tag, or a tarball where the
-- release has no Debian package.
pub data Chosen (release : GithubRelease) (url : Text) : Type 0 where
  deb :
      (asset : GithubAsset)
      → Listed asset release.assets
      → is_deb_asset asset ≡ true
      → starts_with asset.name (deb_prefix release) ≡ true
      → url ≡ asset.browser_download_url
      → Chosen release url
  tarball :
      (asset : GithubAsset)
      → filter is_deb_asset release.assets ≡ []
      → Listed asset release.assets
      → is_tarball asset ≡ true
      → url ≡ asset.browser_download_url
      → Chosen release url

without_match-Chosen :
    (release : GithubRelease) (debs : List GithubAsset) (url : Text)
    → filter is_deb_asset release.assets ≡ debs
    → without_match release debs ≡ ok url
    → Chosen release url
unfolding without_match
without_match-Chosen release [] url same h = elim (Option-cases (find is_tarball release.assets)) [
  | inl e ↦ absurd (ground arith)
  | inr (asset, e) ↦
      let (there, ball) = find-Listed_all is_tarball release.assets asset e in
      tarball asset same there ball (ground arith)
]
without_match-Chosen release (a ∷ []) url same h = cc
without_match-Chosen release (a ∷ b ∷ more) url same h = cc

-- The package that is chosen for a release is one of its assets: a Debian package whose name has
-- the version of the tag, or, only if the release has no Debian package at all, a tarball.
pub unix_release_package_url-Chosen :
    (release : GithubRelease) (url : Text)
    → unix_release_package_url release ≡ ok url
    → Chosen release url
unfolding unix_release_package_url
unix_release_package_url-Chosen release url h =
    let wanted : GithubAsset → Bool = λ asset. starts_with asset.name (deb_prefix release) in
    elim (Option-cases (find wanted (filter is_deb_asset release.assets))) [
      | inr (asset, e) ↦
          let (there, is_deb) = find-Listed wanted is_deb_asset release.assets asset e in
          deb asset there is_deb (find-passes wanted (filter is_deb_asset release.assets) asset e)
            (ground arith)
      | inl e ↦
          without_match-Chosen release (filter is_deb_asset release.assets) url refl (ground arith)
    ]
