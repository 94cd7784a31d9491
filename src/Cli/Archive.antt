-- ===== src/Cli/Archive.antt =====
-- src/cli.rs: `install_archive`, with `verify_checksum` and `normalize_release_layout`, on Unix. What
-- the commands, the download and the file system answer is an argument; the state is the layout of
-- the release directory, its entries by name, and the host of Platform.Activation.
use konnector.Prelude.{
  >>=-eq-ok, try-eq-ok, ◌≡◌, refl, ap, ◌∙◌, sym, Bool, true, false, Option, none, some, List, [],
  ◌∷◌, arith, if◌then◌else◌, Result, Checked, ok, err, ◌>>=◌, ◌>>◌, map_err, Text, codes, str_eq,
  Bool-cases, Result-cases, inl, inr,
}
use konnector.Cli.Packages.{is_remote}
use konnector.Platform.Activation.{
  Host, Answers, ActivationError, IsActivated, activate_release, activate_release-IsActivated,
}
pub mod Installed

pub data Kind : Type 0 where
  file directory : Kind

abbrev pub Layout : Type 0
Layout = Text → Option Kind

abbrev pub is_dir : Option Kind → Bool
is_dir (some directory) = true
is_dir (some file) = false
is_dir none = false

abbrev pub is_file : Option Kind → Bool
is_file (some file) = true
is_file (some directory) = false
is_file none = false

abbrev pub binary_name : Text
binary_name = codes "konnector"

abbrev pub configs : Text
configs = codes "configs"

-- The command that checks the sum runs only for a local archive with a file of its sum.
unfoldable pub verify_checksum : Text → Bool → Checked Text → Checked Text
unfolding is_remote
verify_checksum source has_sum sha256sum =
    if is_remote source then ok tt else if has_sum then sha256sum else ok tt

abbrev pub with_entry : Text → Kind → Layout → Layout
with_entry name kind layout other = if str_eq name other then some kind else layout other

-- The loop over the names that are moved out of a nested directory.
unfoldable pub copy_names :
    (Text → Checked Text) → Layout → List Text → Layout → Layout × Checked Text
unfolding str_eq
copy_names copy nested [] layout = (layout, ok tt)
copy_names copy nested (name ∷ names) layout = elim (nested name) [
  | none ↦ copy_names copy nested names layout
  | some kind ↦ elim (copy name) [
    | err e ↦ (layout, err e)
    | ok _ ↦ copy_names copy nested names (with_entry name kind layout)
  ]
]

-- By the directories of the release: only a single one is looked into.
unfoldable pub flatten : (Text → Checked Text) → List Layout → Layout → Layout × Checked Text
unfolding copy_names
flatten copy (nested ∷ []) layout =
    copy_names copy nested (binary_name ∷ configs ∷ codes "konnector" ∷ []) layout
flatten copy [] layout = (layout, ok tt)
flatten copy (a ∷ b ∷ rest) layout = (layout, ok tt)

unfoldable pub normalize_release_layout :
    Result Text (List Layout) → (Text → Checked Text) → Layout → Layout × Checked Text
unfolding flatten
normalize_release_layout directories copy layout =
    if is_file (layout binary_name)
    then (layout, ok tt)
    else elim directories [ err e ↦ (layout, err e) | ok entries ↦ flatten copy entries layout ]

pub record ArchiveTools : Type 0 where
  pub ensure_layout : Checked Text
  pub download : Checked Text
  pub has_sum : Bool
  pub sha256sum : Checked Text
  pub create_dir_all : Checked Text
  pub extract : Result Text Layout
  pub directories : Result Text (List Layout)
  pub copy : Text → Checked Text
  pub set_executable : Checked Text
  pub grant_bind_capability : Checked Text
  pub chown_release : Checked Text

pub data ArchiveError : Type 0 where
  tool_failed : Text → ArchiveError
  missing_configs missing_binary : ArchiveError
  not_activated : ActivationError → ArchiveError

abbrev pub tool : Checked Text → Checked ArchiveError
tool r = map_err tool_failed r

-- The release directory up to the checks of its layout.
unfoldable pub unpack : ArchiveTools → Text → Result ArchiveError Layout
unfolding verify_checksum normalize_release_layout
unpack t source =
    tool t.ensure_layout
    >> (tool t.download
        >> (tool (verify_checksum source t.has_sum t.sha256sum)
            >> (tool t.create_dir_all
                >> (map_err tool_failed t.extract >>= λ extracted.
                    let (layout, done) = normalize_release_layout t.directories t.copy extracted in
                    tool done >> ok layout))))

unfoldable pub check_layout : Layout → Checked ArchiveError
check_layout layout =
    if is_dir (layout configs)
    then (if is_file (layout binary_name) then ok tt else err missing_binary)
    else err missing_configs

-- The checks and what is done before the activation.
unfoldable pub prepare_release : ArchiveTools → Text → Result ArchiveError Layout
unfolding unpack check_layout
prepare_release t source = unpack t source >>= λ layout.
    check_layout layout
    >> tool t.set_executable
    >> tool t.grant_bind_capability
    >> tool t.chown_release
    >> ok layout

abbrev pub activated : Host × Checked ActivationError → Host × Checked ArchiveError
activated (host, r) = (host, map_err not_activated r)

-- From the activation on.
unfoldable pub activate_prepared :
    Answers → Text → Host → Result ArchiveError Layout → Host × Checked ArchiveError
unfolding activate_release
activate_prepared a release host (err e) = (host, err e)
activate_prepared a release host (ok layout) = activated (activate_release a release host)

unfoldable pub install_archive :
    ArchiveTools → Answers → Text → Text → Host → Host × Checked ArchiveError
unfolding prepare_release activate_prepared
install_archive t a source release host =
    activate_prepared a release host (prepare_release t source)
