-- ===== src/LogFiles.antt =====
-- src/paths.rs on Unix, src/file_log.rs and `resolve_log_target` of src/platform_ops.rs: where the
-- files of the program are, and where its log files are written and looked for.
use konnector.Prelude.{
  ◌≡◌, refl, ap, ◌∙◌, Bool, true, false, ◌||◌, ◌&&◌, Option, none, some, [], ◌∷◌, ◌++◌, map, arith,
  if◌then◌else◌, Text, codes, str_eq, is_empty, trim, strip_prefix, to_ascii_lowercase, or_else,
  leb, ◌==◌, ℕ, all, Bool-cases, inl, inr,
}
use konnector.Prelude.FilePath.{join_path}
use konnector.Configs.Env.{Env}
use konnector.EnvFile.{trim_matches}

unfoldable pub app_dir : Text
app_dir = codes "/opt/konnector"

unfoldable pub data_dir : Text
data_dir = codes "/etc/konnector"

unfoldable pub releases_dir : Text
unfolding join_path app_dir
releases_dir = join_path app_dir (codes "releases")

unfoldable pub current_dir : Text
unfolding join_path app_dir
current_dir = join_path app_dir (codes "current")

unfoldable pub current_binary : Text
unfolding join_path current_dir
current_binary = join_path current_dir (codes "konnector")

unfoldable pub env_file : Text
env_file = codes "/etc/konnector.env"

unfoldable pub ssl_dir : Text
ssl_dir = codes "/etc/ssl/konnector"

unfoldable pub default_config_dir : Text
unfolding join_path current_dir
default_config_dir = join_path current_dir (codes "configs")

unfoldable pub logs_dir : Env → Text
unfolding join_path data_dir trim
logs_dir env =
    let otherwise = join_path data_dir (codes "logs") in
    elim (env (codes "LOGS_DIR")) [
      | none ↦ otherwise
      | some dir ↦ if is_empty (trim dir) then otherwise else trim dir
    ]

unfoldable pub log_file : Env → Text
unfolding join_path logs_dir
log_file env = join_path (join_path (logs_dir env) (codes "main")) (codes "konnector.log")

abbrev pub safe_char : ℕ → Bool
safe_char c =
    leb b'a' c && leb c b'z'
    || leb b'A' c && leb c b'Z'
    || leb b'0' c && leb c b'9'
    || c == b'-'
    || c == b'_'
    || c == b'.'

sanitize_char : ℕ → ℕ
sanitize_char c = if safe_char c then c else b'_'

unfoldable pub sanitize_name : Text → Text
unfolding sanitize_char trim
sanitize_name name = if is_empty (trim name) then codes "unknown" else map sanitize_char (trim name)

-- Below the directory of the logs.
unfoldable pub site_log : Text → Text → Text
unfolding join_path
site_log dir stem = join_path (join_path dir stem) (codes "access.log")

unfoldable pub watcher_log : Text → Text → Text
unfolding join_path
watcher_log dir watcher = join_path (join_path dir (codes "watchers")) (watcher ++ codes ".log")

unfoldable pub site_log_path : Env → Text → Text
unfolding site_log logs_dir sanitize_name
site_log_path env config_stem = site_log (logs_dir env) (sanitize_name config_stem)

unfoldable pub watcher_log_path : Env → Text → Text
unfolding watcher_log logs_dir sanitize_name
watcher_log_path env watcher = watcher_log (logs_dir env) (sanitize_name watcher)

-- `trim_end_matches` of a suffix, which takes every one off.
unfoldable pub trim_suffix : Text → Text → Text
unfolding str_eq
trim_suffix suffix [] = []
trim_suffix suffix (c ∷ s) =
    let rest = trim_suffix suffix s in if str_eq (c ∷ rest) suffix then [] else c ∷ rest

unfoldable pub watcher_of : Text → Option Text
unfolding strip_prefix
watcher_of target =
    or_else (strip_prefix target (codes "watchers/")) (strip_prefix target (codes "watcher/"))

-- The file of a target that is trimmed.
unfoldable pub log_of_target : Env → Text → Text
unfolding watcher_of trim_suffix log_file site_log watcher_log logs_dir str_eq
log_of_target env target =
    if is_empty target || str_eq (to_ascii_lowercase target) (codes "main")
    then log_file env
    else elim (watcher_of target) [
      | some watcher ↦ watcher_log (logs_dir env) watcher
      | none ↦
          if str_eq target (codes "config") || str_eq target (codes "tls")
          then watcher_log (logs_dir env) target
          else site_log (logs_dir env)
              (trim_suffix (codes ".yml") (trim_suffix (codes ".yaml") target))
    ]

unfoldable pub resolve_log_target : Env → Text → Text
unfolding log_of_target trim_matches trim
resolve_log_target env text = log_of_target env (trim_matches b'/' (trim text))

sanitize_char-safe : (c : ℕ) → safe_char (sanitize_char c) ≡ true
unfolding sanitize_char
sanitize_char-safe c = ground arith

map-safe : (s : Text) → all safe_char (map sanitize_char s) ≡ true
map-safe [] = refl
map-safe (c ∷ s) = ground (arith, sanitize_char-safe c, map-safe s)

-- The name of a log directory has only letters, digits, dashes, underscores and dots, and is not
-- empty: there is no separator in it.
pub sanitize_name-safe :
    (name : Text)
    → (all safe_char (sanitize_name name) ≡ true) × (is_empty (sanitize_name name) ≡ false)
unfolding sanitize_name
sanitize_name-safe name = elim (Bool-cases (is_empty (trim name))) [
  | inl blank ↦ rw blank (refl, refl)
  | inr filled ↦ rw filled (map-safe (trim name), kept (trim name) filled)
]
  where
    kept : (s : Text) → is_empty s ≡ false → is_empty (map sanitize_char s) ≡ false
    kept [] h = cc
    kept (c ∷ s) h = refl

-- A stem that the tool can look up: sanitising and trimming leave it, and it is no reserved name.
pub record IsPlainStem (stem : Text) : Type 0 where
  pub sanitized : sanitize_name stem ≡ stem
  pub trimmed : trim_matches b'/' (trim stem) ≡ stem
  pub filled : is_empty stem ≡ false
  pub not_main : str_eq (to_ascii_lowercase stem) (codes "main") ≡ false
  pub not_watcher : watcher_of stem ≡ none
  pub not_config : (str_eq stem (codes "config") || str_eq stem (codes "tls")) ≡ false
  pub bare : trim_suffix (codes ".yml") (trim_suffix (codes ".yaml") stem) ≡ stem

log_of_plain :
    (env : Env) (stem : Text) → IsPlainStem stem → log_of_target env stem ≡ site_log_path env stem
unfolding log_of_target site_log_path
log_of_plain env stem p = ground (
  arith,
  p.filled,
  p.not_main,
  p.not_watcher,
  p.not_config,
  ap (site_log (logs_dir env)) p.bare,
  ap (site_log (logs_dir env)) p.sanitized,
)

-- The log of a site is looked for where it is written, for a stem that is plain.
pub resolve_log_target-site :
    (env : Env) (stem : Text)
    → IsPlainStem stem
    → resolve_log_target env stem ≡ site_log_path env stem
unfolding resolve_log_target
resolve_log_target-site env stem p = ap (log_of_target env) p.trimmed ∙ log_of_plain env stem p
