-- ===== src/Platform/Service.antt =====
-- src/platform_ops.rs on Unix: the commands on the service, the uninstallation, and the check that
-- they are run as root. The state is what was done to the system, in order; what a command answers,
-- and whether the process is root and the service's unit is there, is an argument.
use konnector.Prelude.{
  ◌≡◌, ◌≢◌, refl, Bool, true, false, List, [], ◌∷◌, ◌++◌, if◌then◌else◌, Checked, ok, err, Text,
  codes, Result-cases, Bool-cases, ◌⊎◌, inl, inr,
}
use konnector.LogFiles.{app_dir, data_dir, ssl_dir, env_file}

-- What is done to the system: a verb of systemctl, the purge of the package, a removal.
pub data Action : Type 0 where
  systemctl : Text → Action
  daemon_reload purge_package delete_user : Action
  remove_file remove_dir : Text → Action

pub record Machine : Type 0 where
  pub is_elevated : Bool
  pub service_installed : Bool
  pub package_installed : Bool
  pub answer : Action → Checked Text

pub data ServiceError : Type 0 where
  not_root : Text → ServiceError
  not_installed : ServiceError
  command_failed : Text → ServiceError

abbrev pub Done : Type 0
Done = List Action × Checked ServiceError

unfoldable pub require_elevated : Machine → Text → Checked ServiceError
require_elevated m action = if m.is_elevated then ok tt else err (not_root action)

unfoldable pub require_service : Machine → Checked ServiceError
require_service m = if m.service_installed then ok tt else err not_installed

-- `run_command`, after what was done
abbrev pub as_result : Checked Text → Checked ServiceError
as_result (ok done) = ok tt
as_result (err e) = err (command_failed e)

unfoldable pub run_command : Machine → Action → List Action → Done
run_command m action log = (log ++ action ∷ [], as_result (m.answer action))

-- What follows a check, which does nothing to the system.
abbrev pub checked : Checked ServiceError → List Action → Done → Done
checked (ok done) log rest = rest
checked (err e) log rest = (log, err e)

-- `cmd_start`, `cmd_stop`, `cmd_restart`, `cmd_enable` and `cmd_disable`, by their verb
unfoldable pub cmd_verb : Machine → Text → List Action → Done
unfolding require_elevated require_service run_command
cmd_verb m verb log =
    checked (require_elevated m verb) log
      (checked (require_service m) log (run_command m (systemctl verb) log))

-- A reload that fails becomes a restart.
unfoldable pub or_restart : Machine → Done → Done
unfolding run_command
or_restart m (log, ok done) = (log, ok tt)
or_restart m (log, err e) = run_command m (systemctl (codes "restart")) log

unfoldable pub cmd_reload : Machine → List Action → Done
unfolding require_elevated require_service run_command or_restart
cmd_reload m log = checked (require_elevated m (codes "reload")) log (
    checked (require_service m) log (or_restart m (run_command m (systemctl (codes "reload")) log)))

unfoldable pub cmd_status : Machine → List Action → Done
unfolding require_service run_command
cmd_status m log = checked (require_service m) log (run_command m (systemctl (codes "status")) log)

abbrev service_unit_path : Text
service_unit_path = codes "/lib/systemd/system/konnector.service"

abbrev cli_link_path : Text
cli_link_path = codes "/usr/bin/konnector"

abbrev sudoers_path : Text
sudoers_path = codes "/etc/sudoers.d/konnector-deploy"

-- The stop and the disabling of the service, whose answers are dropped.
abbrev halted : List Action
halted = systemctl (codes "stop") ∷ systemctl (codes "disable") ∷ []

abbrev unit_removed : List Action
unit_removed = remove_file service_unit_path ∷ daemon_reload ∷ []

unfoldable pub cmd_remove_service : Machine → List Action → Done
unfolding require_elevated
cmd_remove_service m log =
    checked (require_elevated m (codes "remove")) log (log ++ halted ++ unit_removed, ok tt)

-- What an uninstallation removes last; no answer is looked at.
unfoldable pub data_removed : List Action
unfolding app_dir data_dir ssl_dir env_file
data_removed =
    remove_dir app_dir
    ∷ remove_dir data_dir
    ∷ remove_dir ssl_dir
    ∷ remove_file env_file
    ∷ remove_file sudoers_path
    ∷ remove_file cli_link_path
    ∷ delete_user
    ∷ []

unfoldable pub remove_data : Done → Done
unfolding data_removed
remove_data (log, ok done) = (log ++ data_removed, ok tt)
remove_data (log, err e) = (log, err e)

-- The package, or the unit where there is none.
unfoldable pub remove_package : Machine → List Action → Done
unfolding run_command
remove_package m log =
    if m.package_installed then run_command m purge_package log else (log ++ unit_removed, ok tt)

unfoldable pub cmd_uninstall_all : Machine → List Action → Done
unfolding require_elevated remove_package remove_data
cmd_uninstall_all m log =
    checked (require_elevated m (codes "uninstall")) log
      (remove_data (remove_package m (log ++ halted)))

-- The commands, as the command line names them.
pub data ServiceCommand : Type 0 where
  start stop restart enable disable reload status remove uninstall : ServiceCommand

unfoldable pub execute : Machine → ServiceCommand → List Action → Done
unfolding cmd_verb cmd_reload cmd_status cmd_remove_service cmd_uninstall_all
execute m start log = cmd_verb m (codes "start") log
execute m stop log = cmd_verb m (codes "stop") log
execute m restart log = cmd_verb m (codes "restart") log
execute m enable log = cmd_verb m (codes "enable") log
execute m disable log = cmd_verb m (codes "disable") log
execute m reload log = cmd_reload m log
execute m status log = cmd_status m log
execute m remove log = cmd_remove_service m log
execute m uninstall log = cmd_uninstall_all m log

abbrev pub is_status : ServiceCommand → Bool
is_status status = true
is_status _ = false

-- Nothing is done, and the command fails.
abbrev pub IsRefused : List Action → Done → Type 0
IsRefused log (after, result) = (after ≡ log) × (result ≢ ok tt)

elevated-IsRefused :
    (m : Machine) (action : Text) (log : List Action) (rest : Done)
    → m.is_elevated ≡ false
    → IsRefused log (checked (require_elevated m action) log rest)
unfolding require_elevated
elevated-IsRefused m action log rest h = rw h (refl, λ e. cc)

-- Without root no command does anything to the system, but the one that shows the status; each
-- fails.
pub execute-IsRefused :
    (m : Machine) (command : ServiceCommand) (log : List Action)
    → m.is_elevated ≡ false
    → is_status command ≡ false
    → IsRefused log (execute m command log)
unfolding execute cmd_verb cmd_reload cmd_remove_service cmd_uninstall_all
execute-IsRefused m start log h other = elevated-IsRefused m _ log _ h
execute-IsRefused m stop log h other = elevated-IsRefused m _ log _ h
execute-IsRefused m restart log h other = elevated-IsRefused m _ log _ h
execute-IsRefused m enable log h other = elevated-IsRefused m _ log _ h
execute-IsRefused m disable log h other = elevated-IsRefused m _ log _ h
execute-IsRefused m reload log h other = elevated-IsRefused m _ log _ h
execute-IsRefused m remove log h other = elevated-IsRefused m _ log _ h
execute-IsRefused m uninstall log h other = elevated-IsRefused m _ log _ h
execute-IsRefused m status log h other = cc

-- The ways an uninstallation by root ends: with the removal of every path of the program and of its
-- user, or with the purge of the package, which failed.
abbrev pub Uninstalled : Machine → List Action → Done → Type 0
Uninstalled m log (after, result) =
    ((before : List Action) × (after ≡ before ++ data_removed) × (result ≡ ok tt))
    ⊎ ((e : Text) × (m.answer purge_package ≡ err e)
        × (after ≡ (log ++ halted) ++ purge_package ∷ [])
        × (result ≡ err (command_failed e)))

-- As root an uninstallation halts the service first. If the package cannot be purged it fails there
-- and removes nothing; otherwise it ends with the removal of every path of the program and of its
-- user, and succeeds.
pub cmd_uninstall_all-Uninstalled :
    (m : Machine) (log : List Action)
    → m.is_elevated ≡ true
    → Uninstalled m log (cmd_uninstall_all m log)
unfolding cmd_uninstall_all remove_package remove_data run_command require_elevated
cmd_uninstall_all-Uninstalled m log root = elim (Bool-cases m.package_installed) [
  | inr absent ↦ rw root (rw absent (inl (_, refl, refl)))
  | inl there ↦ elim (Result-cases (m.answer purge_package)) [
    | inl (done, purged) ↦ rw root (rw there (rw purged (inl (_, refl, refl))))
    | inr (e, failed) ↦ rw root (rw there (rw failed (inr (e, refl, refl, refl))))
  ]
]
