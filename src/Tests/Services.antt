-- ===== src/Tests/Services.antt =====
-- The theorems on the activation of releases and on the clock at concrete inputs.
use konnector.Prelude.{◌≡◌, refl, false, some, Text, codes, ok, ltb, true, arith}
use konnector.Platform.Clock.{civil_datetime_utc}
use konnector.Platform.Clock.Calendar.{IsCivil}
use konnector.Platform.Clock.Civil.{secs_from_civil, civil_datetime_utc_lem}
use konnector.Platform.Activation.{
  Host, Answers, IsActivated, IsLaunched, activate_release, activate_release-IsActivated,
}

civil_datetime_utc_lem_example :
    IsCivil (civil_datetime_utc 1783958625)
    × (secs_from_civil (civil_datetime_utc 1783958625) ≡ 1783958625)
civil_datetime_utc_lem_example = civil_datetime_utc_lem 1783958625 (omega arith)

abbrev old_release : Text
old_release = codes "/opt/konnector/releases/1"

abbrev new_release : Text
new_release = codes "/opt/konnector/releases/2"

abbrev running : Host
running = record { current = some old_release; rollback_restarts = 0 }

-- The service answers from the third attempt on, and the health endpoint from the fifth.
abbrev working : Answers
working = record {
  canonicalize = λ path. some path;
  removes_link = true;
  symlink = λ release. ok tt;
  install_cli_link = ok tt;
  install_service = ok tt;
  restart_or_start = ok tt;
  is_active = λ attempt. ltb 2 attempt;
  health_check = λ attempt. ltb 4 attempt;
  prune = ok tt;
}

activate_release-IsActivated_example :
    IsActivated working new_release (activate_release working new_release running).0
unfolding activate_release
activate_release-IsActivated_example = activate_release-IsActivated working new_release running refl

abbrev unhealthy : Answers
unhealthy = record working { health_check = λ attempt. false }

abbrev launched : IsLaunched unhealthy new_release
launched = record { linked = refl; cli = refl; unit = refl; run = refl }
