-- ===== src/Paths/Prefix.antt =====
-- Matching a request path by a prefix (src/access_control.rs and src/internal_routes.rs have the
-- same test), and `strip_internal_prefix` of src/path_rewrite.rs.
use konnector.Prelude.{
  ◌≡◌, refl, ap, ◌∙◌, ◌⊎◌, inl, inr, ◌↔◌, Bool, true, false, ◌||◌, ◌&&◌, none, some, [], ◌∷◌, ◌++◌,
  arith, append_assoc, Text, codes, str_eq, is_empty, strip_prefix, starts_with, ends_with,
  trim_end_matches, if◌then◌else◌, option_filter, drop, length, ◌-◌, ◌==◌, length-append,
  drop-length-append, Bool-cases, ℕ,
}
use konnector.Prelude.StringLaws.{
  str_eq_refl, str_eq-eq, starts_with-append, starts_with-eq, ends_with-append,
}

abbrev pub is_slash : ℕ → Bool
is_slash c = c == b'/'

abbrev pub slash : Text
slash = codes "/"

-- `prefix.trim_end_matches('/')`
unfoldable pub bare : Text → Text
bare prefix = trim_end_matches is_slash prefix

unfoldable pub opens : Text → Text → Bool
unfolding bare
opens path prefix =
    str_eq path (bare prefix)
    || str_eq path prefix
    || (ends_with prefix slash && starts_with path prefix)

-- `rest.is_empty() || rest.starts_with('/')`
abbrev at_boundary : Text → Bool
at_boundary rest = is_empty rest || starts_with rest slash

unfoldable pub strip_internal_prefix : Text → Text → Text
unfolding bare
strip_internal_prefix path prefix =
    if str_eq path (bare prefix) || str_eq path prefix
    then slash
    else if ends_with prefix slash && starts_with path prefix
    then drop (length prefix - 1) path
    else elim (option_filter at_boundary (strip_prefix path (bare prefix))) [
      | none ↦ path
      | some rest ↦ if is_empty rest then slash else rest
    ]

-- `stem` does not end in a slash.
abbrev pub IsStem : Text → Type 0
IsStem stem = bare stem ≡ stem

trim_end-append_slash :
    (s : Text) → trim_end_matches is_slash (s ++ slash) ≡ trim_end_matches is_slash s
unfolding trim_end_matches
trim_end-append_slash [] = refl
trim_end-append_slash (c ∷ s) = rw (trim_end-append_slash s)

bare-append_slash : (stem : Text) → IsStem stem → bare (stem ++ slash) ≡ stem
unfolding bare
bare-append_slash stem h = trim_end-append_slash stem ∙ h

-- A path below `stem/`.
abbrev pub below : Text → Text → Text
below stem rest = stem ++ b'/' ∷ rest

below-append : (stem rest : Text) → (stem ++ slash) ++ rest ≡ below stem rest
below-append stem rest = append_assoc stem slash rest

module _ (stem path : Text) (trimmed : IsStem stem) where
  opens_sound :
      opens path (stem ++ slash) ≡ true → (path ≡ stem) ⊎ ((rest : Text) × (path ≡ below stem rest))
  unfolding opens
  opens_sound o = elim (Bool-cases (str_eq path (bare (stem ++ slash)))) [
    | inl e ↦ inl (str_eq-eq path (bare (stem ++ slash)) e ∙ bare-append_slash stem trimmed)
    | inr n ↦ elim (Bool-cases (str_eq path (stem ++ slash))) [
      | inl e ↦ inr ([], str_eq-eq path (stem ++ slash) e)
      | inr m ↦
          let (rest, e) = starts_with-eq path (stem ++ slash) (ground arith) in
          inr (rest, e ∙ below-append stem rest)
    ]
  ]

  opens_complete :
      (path ≡ stem) ⊎ ((rest : Text) × (path ≡ below stem rest)) → opens path (stem ++ slash) ≡ true
  unfolding opens
  opens_complete (inl e) = rw (e, bare-append_slash stem trimmed, str_eq_refl stem)
  opens_complete (inr (rest, e)) =
      let ends : ends_with (stem ++ slash) slash ≡ true = ends_with-append stem slash in
      let starts : starts_with path (stem ++ slash) ≡ true =
        rw (e, ← below-append stem rest) (starts_with-append (stem ++ slash) rest) in
      ground (arith, ends, starts)

  -- For a stem that does not end in a slash, the prefix `stem/` opens the stem itself and what lies
  -- below `stem/`, and no other path, such as one that only begins with the same characters.
  pub opens_iff :
      (opens path (stem ++ slash) ≡ true)
      ↔ ((path ≡ stem) ⊎ ((rest : Text) × (path ≡ below stem rest)))
  opens_iff = (opens_sound, opens_complete)

not-below : (stem rest : Text) → str_eq (below stem rest) stem ≡ false
not-below stem rest = elim (Bool-cases (str_eq (below stem rest) stem)) [
  | inl e ↦ absurd (
      omega
        (arith, length-append stem (b'/' ∷ rest), ap length (str_eq-eq (below stem rest) stem e)))
  | inr n ↦ n
]

strip-at_stem : (stem : Text) → IsStem stem → strip_internal_prefix stem (stem ++ slash) ≡ slash
unfolding strip_internal_prefix
strip-at_stem stem trimmed = rw (bare-append_slash stem trimmed, str_eq_refl stem)

longer-than_slash :
    (stem rest : Text) (c : ℕ) → str_eq (below stem (c ∷ rest)) (stem ++ slash) ≡ false
longer-than_slash stem rest c = elim (Bool-cases (str_eq (below stem (c ∷ rest)) (stem ++ slash))) [
  | inl e ↦ absurd (
      omega (
        arith,
        length-append stem (b'/' ∷ c ∷ rest),
        length-append stem slash,
        ap length (str_eq-eq (below stem (c ∷ rest)) (stem ++ slash) e),
      ))
  | inr n ↦ n
]

strip-below :
    (stem rest : Text)
    → IsStem stem
    → strip_internal_prefix (below stem rest) (stem ++ slash) ≡ b'/' ∷ rest
unfolding strip_internal_prefix
strip-below stem [] trimmed = ground (arith, str_eq_refl (stem ++ slash))
strip-below stem (c ∷ rest) trimmed =
    let starts : starts_with (below stem (c ∷ rest)) (stem ++ slash) ≡ true =
      rw (← below-append stem (c ∷ rest)) (starts_with-append (stem ++ slash) (c ∷ rest)) in
    let cut : length (stem ++ slash) - 1 ≡ length stem = omega (arith, length-append stem slash) in
    rw
      (
        bare-append_slash stem trimmed,
        not-below stem (c ∷ rest),
        longer-than_slash stem rest c,
        ends_with-append stem slash,
        starts,
        cut,
      )
      (drop-length-append stem (b'/' ∷ c ∷ rest))

-- A path that the prefix `stem/` opens is stripped to a path that starts with a slash, and the stem
-- in front of it gives the path back; the bare stem itself is stripped to `/`.
pub strip_internal_prefix-opens :
    (stem path : Text)
    → IsStem stem
    → opens path (stem ++ slash) ≡ true
    → (rest : Text) × (strip_internal_prefix path (stem ++ slash) ≡ b'/' ∷ rest)
      × ((path ≡ below stem rest) ⊎ ((path ≡ stem) × (rest ≡ [])))
strip_internal_prefix-opens stem path trimmed o = elim (opens_sound stem path trimmed o) [
  | inl e ↦ ([], rw e (strip-at_stem stem trimmed), inr (e, refl))
  | inr (rest, e) ↦ (rest, rw e (strip-below stem rest trimmed), inl e)
]
