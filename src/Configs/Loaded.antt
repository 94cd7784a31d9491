-- ===== src/Configs/Loaded.antt =====
-- src/configs.rs: what the loading of a directory finds.
use konnector.Prelude.{
  ◌≡◌, refl, Bool, true, false, ◌&&◌, Option, some, List, [], ◌∷◌, arith, Text, str_eq, filter,
  Bool-cases, inl, inr, ap, ◌∙◌,
}
use konnector.Prelude.StringLaws.{str_eq-eq}
use konnector.Prelude.Sorting.{mem, mem-sort}
use konnector.Configs.Types.{SiteConfig}
use konnector.Configs.Loading.{is_tcp_config, is_root_file, list_paths, loaded_site}

mem-filter : (p : Text → Bool) (x : Text) (xs : List Text) → mem x (filter p xs) ≡ (mem x xs && p x)
mem-filter p x [] = refl
mem-filter p x (y ∷ xs) = elim (Bool-cases (str_eq x y)) [
  | inl same ↦
      let e : p x ≡ p y = ap p (str_eq-eq x y same) in
      elim (Bool-cases (p y)) [
        | inl kept ↦ ground (arith, mem-filter p x xs)
        | inr dropped ↦ ground (arith, mem-filter p x xs)
      ]
  | inr other ↦ elim (Bool-cases (p y)) [
    | inl kept ↦ ground (arith, mem-filter p x xs)
    | inr dropped ↦ ground (arith, mem-filter p x xs)
  ]
]

-- The selected names of a directory, and no other.
pub mem-list_paths :
    (p : Text → Bool) (x : Text) (names : List Text)
    → mem x (list_paths p names) ≡ (mem x names && p x)
unfolding list_paths
mem-list_paths p x names = mem-sort x (filter p names) ∙ mem-filter p x names

abbrev pub IsLoaded : (Text → Option SiteConfig) → List Text → SiteConfig → Type 0
IsLoaded parse names site =
    (name : Text) × (raw : SiteConfig) × (mem name names ≡ true)
    × (parse name ≡ some raw)
    × (site ≡ loaded_site name raw)

-- A site as it is loaded from a file of the directory that is no TCP proxy and not the root file.
abbrev pub IsSiteFile : (Text → Option SiteConfig) → List Text → SiteConfig → Type 0
IsSiteFile parse names site =
    (name : Text) × (raw : SiteConfig) × (mem name names ≡ true)
    × (is_tcp_config name ≡ false)
    × (is_root_file name ≡ false)
    × (parse name ≡ some raw)
    × (site ≡ loaded_site name raw)
