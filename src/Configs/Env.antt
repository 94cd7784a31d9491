-- ===== src/Configs/Env.antt =====
-- src/configs.rs: settings from environment variables. The environment is a function: a variable
-- that is not set, or not Unicode, has no value.
use konnector.Prelude.{
  ℕ, Bool, true, false, Option, none, some, List, [], ◌∷◌, if◌then◌else◌, Text, codes, str_eq,
  is_empty, trim, any, parse_uint, unwrap_or, ◌^◌, ◌-◌,
}

abbrev pub Env : Type 0
Env = Text → Option Text

unfoldable pub env_string : Env → Text → Text → Text
unfolding trim
env_string env name default = elim (env name) [
  | some value ↦ let trimmed = trim value in if is_empty trimmed then default else trimmed
  | none ↦ default
]

unfoldable pub env_optional : Env → Text → Option Text
unfolding trim
env_optional env name = elim (env name) [
  | some value ↦ let trimmed = trim value in if is_empty trimmed then none else some trimmed
  | none ↦ none
]

abbrev u64_max : ℕ
u64_max = 2 ^ 64 - 1

unfoldable pub env_u64 : Env → Text → ℕ → ℕ
unfolding trim
env_u64 env name default = elim (env name) [
  | some value ↦ unwrap_or (parse_uint u64_max (trim value)) default
  | none ↦ default
]

unfoldable pub is_one_of : List Text → Text → Bool
unfolding str_eq
is_one_of words value = any (str_eq value) words

abbrev pub yes_words : List Text
yes_words =
    codes "1"
    ∷ codes "true"
    ∷ codes "TRUE"
    ∷ codes "yes"
    ∷ codes "YES"
    ∷ codes "on"
    ∷ codes "ON"
    ∷ []

abbrev pub no_words : List Text
no_words =
    codes "0"
    ∷ codes "false"
    ∷ codes "FALSE"
    ∷ codes "no"
    ∷ codes "NO"
    ∷ codes "off"
    ∷ codes "OFF"
    ∷ []

unfoldable pub env_bool : Env → Text → Bool → Bool
unfolding is_one_of trim
env_bool env name default = elim (env name) [
  | some value ↦
      if is_one_of yes_words (trim value)
      then true
      else if is_one_of no_words (trim value)
      then false
      else default
  | none ↦ default
]
