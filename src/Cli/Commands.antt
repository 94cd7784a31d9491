-- ===== src/Cli/Commands.antt =====
-- src/cli.rs: which arguments are commands, and what they are dispatched to. A command is a value in
-- place of the function that is called; a `match` on strings is a table, searched from its start.
use konnector.Prelude.{
  ◌≡◌, refl, Bool, true, false, ◌||◌, Option, none, some, List, [], ◌∷◌, arith, if◌then◌else◌,
  Result, ok, err, Text, codes, str_eq, starts_with, any, all, is_some, Bool-cases, inl, inr, ap,
  Option-cases,
}
use konnector.Prelude.StringLaws.{str_eq-eq}

pub data Command : Type 0 where
  start stop restart reload enable disable status health : Command
  logs install update : List Text → Command
  remove uninstall_all init tags releases current build_deb version help : Command

pub data CommandError : Type 0 where
  serve_hint : CommandError
  unknown : Text → CommandError

abbrev admin_names : List Text
admin_names =
    codes "start"
    ∷ codes "stop"
    ∷ codes "restart"
    ∷ codes "reload"
    ∷ codes "enable"
    ∷ codes "disable"
    ∷ codes "status"
    ∷ codes "health"
    ∷ codes "logs"
    ∷ codes "install"
    ∷ codes "update"
    ∷ codes "upgrade"
    ∷ codes "remove"
    ∷ codes "uninstall"
    ∷ codes "purge"
    ∷ codes "init"
    ∷ codes "tags"
    ∷ codes "releases"
    ∷ codes "current"
    ∷ codes "build-deb"
    ∷ codes "version"
    ∷ codes "help"
    ∷ codes "-h"
    ∷ codes "--help"
    ∷ codes "-V"
    ∷ codes "--version"
    ∷ []

unfoldable pub is_admin_command : List Text → Bool
unfolding str_eq
is_admin_command [] = false
is_admin_command (command ∷ args) = any (str_eq command) admin_names

-- The arms of `dispatch` that run something, with the arguments behind the command.
abbrev arms : List Text → List (Text × Command)
arms rest =
    (codes "start", start)
    ∷ (codes "stop", stop)
    ∷ (codes "restart", restart)
    ∷ (codes "reload", reload)
    ∷ (codes "enable", enable)
    ∷ (codes "disable", disable)
    ∷ (codes "status", status)
    ∷ (codes "health", health)
    ∷ (codes "logs", logs rest)
    ∷ (codes "install", install rest)
    ∷ (codes "update", update rest)
    ∷ (codes "upgrade", update rest)
    ∷ (codes "remove", remove)
    ∷ (codes "uninstall", uninstall_all)
    ∷ (codes "purge", uninstall_all)
    ∷ (codes "init", init)
    ∷ (codes "tags", tags)
    ∷ (codes "releases", releases)
    ∷ (codes "current", current)
    ∷ (codes "build-deb", build_deb)
    ∷ (codes "version", version)
    ∷ (codes "-V", version)
    ∷ (codes "--version", version)
    ∷ (codes "help", help)
    ∷ (codes "-h", help)
    ∷ (codes "--help", help)
    ∷ ([], help)
    ∷ []

arm_of : Text → List (Text × Command) → Option Command
unfolding str_eq
arm_of name [] = none
arm_of name ((n, command) ∷ table) = if str_eq name n then some command else arm_of name table

abbrev command_or_error : Text → Option Command → Result CommandError Command
command_or_error name (some command) = ok command
command_or_error name none =
    if str_eq name (codes "serve") then err serve_hint else err (unknown name)

unfoldable pub dispatch : List Text → Result CommandError Command
unfolding arm_of
dispatch [] = ok help
dispatch (name ∷ rest) = command_or_error name (arm_of name (arms rest))

-- The options of `logs`: whether to follow, the number of lines as it was written, and the target.
pub record LogOptions : Type 0 where
  pub follow : Bool
  pub lines : Text
  pub target : Text

-- The loop over the arguments; a `--lines` at the end means 100.
unfoldable pub logs_loop : List Text → LogOptions → Result Text LogOptions
unfolding str_eq starts_with
logs_loop [] o = ok o
logs_loop (value ∷ []) o =
    if str_eq value (codes "--follow") || str_eq value (codes "-f")
    then ok (record o { follow = true })
    else if str_eq value (codes "--lines") || str_eq value (codes "-n")
    then ok (record o { lines = codes "100" })
    else if starts_with value (codes "-")
    then err value
    else ok (record o { target = value })
logs_loop (value ∷ next ∷ rest) o =
    let followed = logs_loop (next ∷ rest) (record o { follow = true }) in
    let counted = logs_loop rest (record o { lines = next }) in
    let targeted = logs_loop (next ∷ rest) (record o { target = value }) in
    if str_eq value (codes "--follow") || str_eq value (codes "-f")
    then followed
    else if str_eq value (codes "--lines") || str_eq value (codes "-n")
    then counted
    else if starts_with value (codes "-")
    then err value
    else targeted

unfoldable pub cmd_logs : List Text → Result Text LogOptions
unfolding logs_loop
cmd_logs args =
    logs_loop args (record { follow = false; lines = codes "100"; target = codes "main" })

arm_found : (rest : List Text) → all (λ n. is_some (arm_of n (arms rest))) admin_names ≡ true
unfolding arm_of
arm_found rest = refl

all-any :
    (p : Text → Bool) (x : Text) (xs : List Text)
    → all p xs ≡ true
    → any (str_eq x) xs ≡ true
    → p x ≡ true
all-any p x [] h m = cc
all-any p x (y ∷ xs) h m = elim (Bool-cases (str_eq x y)) [
  | inl same ↦ ground (arith, ap p (str_eq-eq x y same))
  | inr other ↦ all-any p x xs (ground arith) (ground arith)
]

-- Every argument that is taken for a command of the administration runs something: `dispatch` never
-- answers it with an error of its own.
pub is_admin_command-dispatch :
    (args : List Text)
    → is_admin_command args ≡ true
    → (command : Command) × (dispatch args ≡ ok command)
unfolding is_admin_command dispatch
is_admin_command-dispatch [] h = cc
is_admin_command-dispatch (name ∷ rest) h =
    let found = all-any (λ n. is_some (arm_of n (arms rest))) name admin_names (arm_found rest) h in
    elim (Option-cases (arm_of name (arms rest))) [
      | inl e ↦ absurd (ground (arith, found, e))
      | inr (command, e) ↦ (command, rw e refl)
    ]
