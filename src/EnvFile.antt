-- ===== src/EnvFile.antt =====
-- src/env_file.rs: `load_if_present`, on the text of the file. A variable without a Unicode name is
-- not asked for; a line that holds a NUL, which stops the program, is left out.
use konnector.Prelude.{
  ◌≡◌, ap, ◌||◌, Option, none, some, List, [], ◌∷◌, arith, if◌then◌else◌, Text, codes, str_eq,
  is_empty, trim, starts_with, split, split_once, trim_start_matches, trim_end_matches, is_some,
  ◌==◌, ℕ, Option-cases, Bool-cases, inl, inr, ◌⊎◌,
}
use konnector.Prelude.StringLaws.{str_eq-eq}
use konnector.Configs.Env.{Env}
pub mod ConfigDir

unfoldable pub without_cr : Text → Text
without_cr [] = []
without_cr (c ∷ []) = if c == 13 then [] else c ∷ []
without_cr (c ∷ d ∷ s) = c ∷ without_cr (d ∷ s)

-- `str::lines`: what a last newline ends is not followed by an empty line.
unfoldable pub lines_of : List Text → List Text
unfolding without_cr
lines_of [] = []
lines_of (line ∷ []) = if is_empty line then [] else line ∷ []
lines_of (line ∷ next ∷ rest) = without_cr line ∷ lines_of (next ∷ rest)

unfoldable pub lines : Text → List Text
unfolding lines_of split
lines contents = lines_of (split contents 10)

unfoldable pub trim_matches : ℕ → Text → Text
unfolding trim_start_matches trim_end_matches
trim_matches c s = trim_end_matches (λ d. d == c) (trim_start_matches (λ d. d == c) s)

unfoldable pub set_var : Text → Text → Env → Env
unfolding str_eq
set_var key value env name = if str_eq key name then some value else env name

-- The name and the value of a line, if it sets a variable.
unfoldable pub assignment : Text → Option (Text × Text)
unfolding trim starts_with split_once trim_matches
assignment raw =
    let line = trim raw in
    if is_empty line || starts_with line (codes "#") then none else elim (split_once line b'=') [
      | none ↦ none
      | some (key, value) ↦
          if is_empty (trim key)
          then none
          else some (trim key, trim_matches b'\'' (trim_matches b'"' (trim value)))
    ]

unfoldable pub load_line : Env → Text → Env
unfolding assignment set_var
load_line env raw = elim (assignment raw) [
  | none ↦ env
  | some (key, value) ↦ if is_some (env key) then env else set_var key value env
]

unfoldable pub load_lines : Env → List Text → Env
unfolding load_line
load_lines env [] = env
load_lines env (raw ∷ rest) = load_lines (load_line env raw) rest

-- A file that cannot be read has no text.
unfoldable pub load_if_present : Option Text → Env → Env
unfolding load_lines lines
load_if_present none env = env
load_if_present (some contents) env = load_lines env (lines contents)

load_line-keeps :
    (env : Env) (raw name value : Text)
    → env name ≡ some value
    → load_line env raw name ≡ some value
unfolding load_line set_var
load_line-keeps env raw name value h = elim (Option-cases (assignment raw)) [
  | inl e ↦ ground (arith, e)
  | inr ((key, new), e) ↦ elim (Bool-cases (is_some (env key))) [
    | inl set ↦ ground (arith, e)
    | inr unset ↦ elim (Bool-cases (str_eq key name)) [
      | inl same ↦ absurd (ground (arith, ap env (str_eq-eq key name same)))
      | inr other ↦ ground (arith, e)
    ]
  ]
]

load_lines-keeps :
    (env : Env) (raws : List Text) (name value : Text)
    → env name ≡ some value
    → load_lines env raws name ≡ some value
unfolding load_lines
load_lines-keeps env [] name value h = h
load_lines-keeps env (raw ∷ rest) name value h =
    load_lines-keeps (load_line env raw) rest name value (load_line-keeps env raw name value h)

abbrev pub IsAssigned : Text → Text → List Text → Type 0
IsAssigned name value [] = ⊥
IsAssigned name value (raw ∷ rest) =
    (assignment raw ≡ some (name, value)) ⊎ IsAssigned name value rest

load_line-new :
    (env : Env) (raw name value : Text)
    → load_line env raw name ≡ some value
    → (env name ≡ some value) ⊎ (assignment raw ≡ some (name, value))
unfolding load_line set_var
load_line-new env raw name value h = elim (Option-cases (assignment raw)) [
  | inl e ↦ inl (ground (arith, e))
  | inr ((key, new), e) ↦ elim (Bool-cases (is_some (env key))) [
    | inl set ↦ inl (ground (arith, e))
    | inr unset ↦ elim (Bool-cases (str_eq key name)) [
      | inl same ↦
          let k = str_eq-eq key name same in
          let v : new ≡ value = ground (arith, e) in inr (rw (← k, ← v) e)
      | inr other ↦ inl (ground (arith, e))
    ]
  ]
]

load_lines-new :
    (env : Env) (raws : List Text) (name value : Text)
    → load_lines env raws name ≡ some value
    → (env name ≡ some value) ⊎ IsAssigned name value raws
unfolding load_lines
load_lines-new env [] name value h = inl h
load_lines-new env (raw ∷ rest) name value h =
    elim (load_lines-new (load_line env raw) rest name value h) [
      | inl before ↦ elim (load_line-new env raw name value before) [
        | inl old ↦ inl old
        | inr here ↦ inr (inl here)
      ]
      | inr later ↦ inr (inr later)
    ]

-- Loading the environment file keeps the value of every variable that was set; a variable that is
-- new afterwards is one that a line of the file sets, with that value.
pub load_if_present_lem :
    (contents : Text) (env : Env) (name value : Text)
    → (env name ≡ some value → load_if_present (some contents) env name ≡ some value)
      × (env name ≡ none
          → load_if_present (some contents) env name ≡ some value
          → IsAssigned name value (lines contents))
unfolding load_if_present
load_if_present_lem contents env name value = (
  load_lines-keeps env (lines contents) name value,
  λ unset h. elim (load_lines-new env (lines contents) name value h) [
    | inl old ↦ absurd (ground (arith, unset, old))
    | inr new ↦ new
  ],
)
