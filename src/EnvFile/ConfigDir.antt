-- ===== src/EnvFile/ConfigDir.antt =====
-- src/platform_ops.rs: `ensure_config_dir_env`, on the text of the environment file.
use konnector.Prelude.{
  ◌≡◌, refl, sym, ap, ◌∙◌, Bool, true, false, List, [], ◌∷◌, ◌++◌, arith, if◌then◌else◌, any, Text,
  codes, starts_with, split, ◌==◌, Bool-cases, inl, inr, append_assoc, append-nil,
}
use konnector.Prelude.Splitting.{split-cons, split-append}
use konnector.EnvFile.{lines, lines_of}
use konnector.LogFiles.{default_config_dir}

-- `line.starts_with("CONFIG_DIR=")`
abbrev sets_config_dir : Text → Bool
sets_config_dir line = starts_with line (codes "CONFIG_DIR=")

unfoldable pub ends_line : Text → Bool
ends_line [] = false
ends_line (c ∷ []) = c == 10
ends_line (c ∷ d ∷ s) = ends_line (d ∷ s)

unfoldable pub config_dir_line : Text
unfolding default_config_dir
config_dir_line = codes "CONFIG_DIR=" ++ default_config_dir ++ 10 ∷ []

unfoldable pub has_config_dir : Text → Bool
unfolding lines starts_with
has_config_dir contents = any sets_config_dir (lines contents)

-- The text that the file has afterwards.
unfoldable pub ensure_config_dir_env : Text → Text
unfolding has_config_dir ends_line config_dir_line
ensure_config_dir_env contents =
    if has_config_dir contents
    then contents
    else if ends_line contents
    then contents ++ config_dir_line
    else contents ++ 10 ∷ config_dir_line

-- A line that the end of a text has is a line of the text.
any-lines_of :
    (p : Text → Bool) (before : List Text) (line : Text) (rest : List Text)
    → any p (lines_of (line ∷ rest)) ≡ true
    → any p (lines_of (before ++ line ∷ rest)) ≡ true
unfolding lines_of
any-lines_of p [] line rest h = h
any-lines_of p (b ∷ []) line rest h = ground (arith, h)
any-lines_of p (b ∷ c ∷ before) line rest h =
    ground (arith, any-lines_of p (c ∷ before) line rest h)

any-lines :
    (p : Text → Bool) (a b : Text) → any p (lines b) ≡ true → any p (lines (a ++ 10 ∷ b)) ≡ true
unfolding lines
any-lines p a b h =
    let (line, rest, e) = split-cons b 10 in
    ap (λ parts. any p (lines_of parts))
      (split-append a b 10 refl ∙ ap (λ parts. split a 10 ++ parts) e)
    ∙ any-lines_of p (split a 10) line rest (ap (λ parts. any p (lines_of parts)) (sym e) ∙ h)

ends_line-split : (s : Text) → ends_line s ≡ true → (a : Text) × (s ≡ a ++ 10 ∷ [])
unfolding ends_line
ends_line-split [] h = cc
ends_line-split (c ∷ []) h =
    let newline : c ≡ 10 = ground (arith, h) in ([], ap (λ d. d ∷ []) newline)
ends_line-split (c ∷ d ∷ s) h =
    let (a, e) = ends_line-split (d ∷ s) h in (c ∷ a, ap (λ rest. c ∷ rest) e)

config_dir_line-set : any sets_config_dir (lines config_dir_line) ≡ true
unfolding lines config_dir_line starts_with split
config_dir_line-set = refl

has_config_dir-ensure : (contents : Text) → has_config_dir (ensure_config_dir_env contents) ≡ true
unfolding has_config_dir ensure_config_dir_env
has_config_dir-ensure contents = elim (Bool-cases (has_config_dir contents)) [
  | inl there ↦ rw there there
  | inr missing ↦ elim (Bool-cases (ends_line contents)) [
    | inr open_end ↦
        rw missing
          (rw open_end (any-lines sets_config_dir contents config_dir_line config_dir_line-set))
    | inl closed ↦
        let (a, e) = ends_line-split contents closed in
        rw missing (
          rw closed (
            ap (λ s. has_config_dir (s ++ config_dir_line)) e
            ∙ ap has_config_dir (append_assoc a (10 ∷ []) config_dir_line)
            ∙ any-lines sets_config_dir a config_dir_line config_dir_line-set))
  ]
]

ensure-appends :
    (contents : Text) → (added : Text) × (ensure_config_dir_env contents ≡ contents ++ added)
unfolding ensure_config_dir_env
ensure-appends contents = elim (Bool-cases (has_config_dir contents)) [
  | inl there ↦ ([], rw there (sym (append-nil contents)))
  | inr missing ↦ elim (Bool-cases (ends_line contents)) [
    | inl closed ↦ (config_dir_line, rw missing (rw closed refl))
    | inr open_end ↦ (10 ∷ config_dir_line, rw missing (rw open_end refl))
  ]
]

ensure-unchanged : (s : Text) → has_config_dir s ≡ true → ensure_config_dir_env s ≡ s
unfolding ensure_config_dir_env
ensure-unchanged s h = rw h refl

-- After the change a line of the environment file sets `CONFIG_DIR`, what the file held before is
-- its beginning, and a second change leaves the file alone.
pub ensure_config_dir_env_lem :
    (contents : Text)
    → (has_config_dir (ensure_config_dir_env contents) ≡ true)
      × ((added : Text) × (ensure_config_dir_env contents ≡ contents ++ added))
      × (ensure_config_dir_env (ensure_config_dir_env contents) ≡ ensure_config_dir_env contents)
ensure_config_dir_env_lem contents =
    let there = has_config_dir-ensure contents in
    (there, ensure-appends contents, ensure-unchanged (ensure_config_dir_env contents) there)
