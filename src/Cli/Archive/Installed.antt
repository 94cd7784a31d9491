-- ===== src/Cli/Archive/Installed.antt =====
-- What is known of an archive that `install_archive` of src/cli.rs installed.
use konnector.Prelude.{
  >>=-eq-ok, try-eq-ok, ◌≡◌, refl, ap, ◌∙◌, sym, Bool, true, false, arith, Result, Checked, ok, err,
  ◌>>◌, Text, Bool-cases, inl, inr,
}
use konnector.Cli.Packages.{is_remote}
use konnector.Platform.Activation.{
  Host, Answers, ActivationError, IsActivated, activate_release, activate_release-IsActivated,
}
use konnector.Cli.Archive.{
  Layout, is_dir, is_file, binary_name, configs, verify_checksum, ArchiveTools, ArchiveError,
  tool_failed, tool, unpack, check_layout, prepare_release, activated, activate_prepared,
  install_archive,
}

-- What is known of a release that was installed.
pub record IsInstalled (t : ArchiveTools) (a : Answers) (source release : Text) (host : Host)
    : Type 0 where
  pub layout : Layout
  pub unpacked : unpack t source ≡ ok layout
  pub with_configs : is_dir (layout configs) ≡ true
  pub with_binary : is_file (layout binary_name) ≡ true
  pub summed : is_remote source ≡ false → t.has_sum ≡ true → t.sha256sum ≡ ok tt
  pub active : IsActivated a release host

verify_checksum-local :
    (source : Text) (has_sum : Bool) (sha256sum : Checked Text)
    → verify_checksum source has_sum sha256sum ≡ ok tt
    → is_remote source ≡ false
    → has_sum ≡ true
    → sha256sum ≡ ok tt
unfolding verify_checksum
verify_checksum-local source has_sum sha256sum h near there = ground (arith, h)

unpack-summed :
    (t : ArchiveTools) (source : Text) (layout : Layout)
    → unpack t source ≡ ok layout
    → verify_checksum source t.has_sum t.sha256sum ≡ ok tt
unfolding unpack
unpack-summed t source layout h =
    let (_, _, after_layout) = try-eq-ok tool_failed t.ensure_layout _ h in
    let (_, _, after_download) = try-eq-ok tool_failed t.download _ after_layout in
    let (_, summed, _) =
      try-eq-ok tool_failed (verify_checksum source t.has_sum t.sha256sum) _ after_download in
    summed

check_layout-ok :
    (layout : Layout)
    → check_layout layout ≡ ok tt
    → (is_dir (layout configs) ≡ true) × (is_file (layout binary_name) ≡ true)
unfolding check_layout
check_layout-ok layout h = elim (Bool-cases (is_dir (layout configs))) [
  | inr no_configs ↦ absurd (ground (arith, no_configs))
  | inl with_configs ↦ elim (Bool-cases (is_file (layout binary_name))) [
    | inl with_binary ↦ (with_configs, with_binary)
    | inr no_binary ↦ absurd (ground (arith, with_configs, no_binary))
  ]
]

-- A chain of checks before a value succeeds only if its first check does.
checked_first :
    (check second third fourth : Checked ArchiveError) (layout result : Layout)
    → (check >> second >> third >> fourth >> ok layout) ≡ ok result
    → (check ≡ ok tt) × (layout ≡ result)
checked_first (ok _) (ok _) (ok _) (ok _) layout result h = (refl, cc)
checked_first (ok _) (ok _) (ok _) (err e) layout result h = cc
checked_first (ok _) (ok _) (err e) fourth layout result h = cc
checked_first (ok _) (err e) third fourth layout result h = cc
checked_first (err e) second third fourth layout result h = cc

prepare_release-checks :
    (t : ArchiveTools) (source : Text) (layout : Layout)
    → prepare_release t source ≡ ok layout
    → (unpack t source ≡ ok layout)
      × (is_dir (layout configs) ≡ true)
      × (is_file (layout binary_name) ≡ true)
unfolding prepare_release
prepare_release-checks t source layout h =
    let (l, unpacked, rest) = >>=-eq-ok (unpack t source) _ h in
    let (checked, same) =
      checked_first (check_layout l) (tool t.set_executable) (tool t.grant_bind_capability)
        (tool t.chown_release) l layout rest in
    let (with_configs, with_binary) =
      check_layout-ok layout (ap check_layout (sym same) ∙ checked) in
    (unpacked ∙ ap ok same, with_configs, with_binary)

activated-ok :
    (r : Host × Checked ActivationError)
    → (activated r).1 ≡ ok tt
    → (r.1 ≡ ok tt) × (r.0 ≡ (activated r).0)
activated-ok (host, ok done) h = (refl, refl)
activated-ok (host, err e) h = cc

-- A release is reported as installed only if its archive was unpacked, with a directory `configs`
-- and the binary in it, its sum was right if it is local and comes with one, and it was activated:
-- linked, up and healthy.
pub install_archive-IsInstalled :
    (t : ArchiveTools) (a : Answers) (source release : Text) (host : Host)
    → (install_archive t a source release host).1 ≡ ok tt
    → IsInstalled t a source release (install_archive t a source release host).0
unfolding install_archive activate_prepared
install_archive-IsInstalled t a source release host =
    by_prepared (prepare_release t source) (λ layout. prepare_release-checks t source layout)
  where
    by_prepared :
        (prepared : Result ArchiveError Layout)
        → ((layout : Layout)
            → prepared ≡ ok layout
            → (unpack t source ≡ ok layout)
              × (is_dir (layout configs) ≡ true)
              × (is_file (layout binary_name) ≡ true))
        → (activate_prepared a release host prepared).1 ≡ ok tt
        → IsInstalled t a source release (activate_prepared a release host prepared).0
    by_prepared (err e) checks h = cc
    by_prepared (ok layout) checks h =
        let (unpacked, with_configs, with_binary) = checks layout refl in
        let (success, same) = activated-ok (activate_release a release host) h in
        record {
          layout = layout;
          unpacked = unpacked;
          with_configs = with_configs;
          with_binary = with_binary;
          summed =
              verify_checksum-local source t.has_sum t.sha256sum
                (unpack-summed t source layout unpacked);
          active = activate_release-IsActivated a release host success;
        }
