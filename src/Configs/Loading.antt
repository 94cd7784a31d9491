-- ===== src/Configs/Loading.antt =====
-- src/configs.rs: which files of the configuration directory are sites and which TCP proxies, and the
-- lenient loading of them. A file is its name in the directory; reading and parsing one is a
-- parameter, and so is the list of the entries, which has no value if it cannot be read.
use konnector.Prelude.{
  Bool, false, not, ◌||◌, Option, none, some, List, [], ◌∷◌, if◌then◌else◌, Text, codes, str_eq,
  is_empty, ends_with, filter,
}
use konnector.Prelude.FilePath.{extension, file_stem}
use konnector.Prelude.Sorting.{sort}
use konnector.Configs.Types.{SiteConfig, resolve_http_versions}
use konnector.Configs.Tcp.{TcpProxyConfig}

unfoldable pub is_tcp_config : Text → Bool
unfolding ends_with
is_tcp_config name = ends_with name (codes ".tcp.yaml") || ends_with name (codes ".tcp.yml")

unfoldable pub is_yaml : Text → Bool
unfolding extension str_eq
is_yaml name = elim (extension name) [
  | none ↦ false
  | some e ↦ str_eq e (codes "yml") || str_eq e (codes "yaml")
]

unfoldable pub is_root_file : Text → Bool
unfolding str_eq
is_root_file name = str_eq name (codes "root.yaml") || str_eq name (codes "root.yml")

unfoldable pub is_site_config : Text → Bool
unfolding is_tcp_config is_yaml is_root_file
is_site_config name =
    if is_tcp_config name
    then false
    else if not (is_yaml name)
    then false
    else not (is_root_file name)

unfoldable pub config_stem : Text → Text
unfolding file_stem
config_stem name = file_stem name

-- The names of a directory that a test selects, sorted.
unfoldable pub list_paths : (Text → Bool) → List Text → List Text
unfolding sort
list_paths selected names = sort (filter selected names)

-- load_site_file
unfoldable pub load_site_file : (Text → Option SiteConfig) → Text → Option SiteConfig
unfolding config_stem
load_site_file parse name = elim (parse name) [
  | none ↦ none
  | some site ↦ some (record site { source_file = config_stem name })
]

unfoldable pub load_sites : (Text → Option SiteConfig) → List Text → List SiteConfig
unfolding load_site_file resolve_http_versions
load_sites parse [] = []
load_sites parse (name ∷ names) = elim (load_site_file parse name) [
  | none ↦ load_sites parse names
  | some site ↦ resolve_http_versions site ∷ load_sites parse names
]

unfoldable pub load_sites_from_lenient :
    (Text → Option SiteConfig) → Option (List Text) → List SiteConfig
unfolding load_sites list_paths is_site_config
load_sites_from_lenient parse none = []
load_sites_from_lenient parse (some names) = load_sites parse (list_paths is_site_config names)

-- `trim_end_matches(".tcp")`, which takes every one off.
unfoldable pub trim_tcp : Text → Text
unfolding str_eq
trim_tcp [] = []
trim_tcp (c ∷ name) =
    let rest = trim_tcp name in if str_eq (c ∷ rest) (codes ".tcp") then [] else c ∷ rest

-- load_tcp_file
unfoldable pub load_tcp_file : (Text → Option TcpProxyConfig) → Text → Option TcpProxyConfig
unfolding config_stem
load_tcp_file parse name = elim (parse name) [
  | none ↦ none
  | some proxy ↦ some (record proxy { source_file = config_stem name })
]

unfoldable pub with_name : Text → TcpProxyConfig → TcpProxyConfig
unfolding trim_tcp config_stem
with_name file proxy =
    let sourced : TcpProxyConfig = record proxy { source_file = config_stem file } in
    if is_empty sourced.name
    then record sourced { name = trim_tcp sourced.source_file }
    else sourced

unfoldable pub load_tcp : (Text → Option TcpProxyConfig) → List Text → List TcpProxyConfig
unfolding load_tcp_file with_name
load_tcp parse [] = []
load_tcp parse (file ∷ files) = elim (load_tcp_file parse file) [
  | none ↦ load_tcp parse files
  | some proxy ↦ with_name file proxy ∷ load_tcp parse files
]

unfoldable pub load_tcp_from_lenient :
    (Text → Option TcpProxyConfig) → Option (List Text) → List TcpProxyConfig
unfolding load_tcp list_paths is_tcp_config
load_tcp_from_lenient parse none = []
load_tcp_from_lenient parse (some names) = load_tcp parse (list_paths is_tcp_config names)

-- A site as it is loaded from a file.
unfoldable pub loaded_site : Text → SiteConfig → SiteConfig
unfolding resolve_http_versions config_stem
loaded_site name site = resolve_http_versions (record site { source_file = config_stem name })
