-- ===== src/Platform/Activation.antt =====
-- src/platform_ops.rs: `activate_release` on Unix, with `wait_for_health` and `prune_releases`. What
-- the commands and the file system answer is an argument; the state is the target of the link of
-- the current release, and how often the service was restarted for a rollback.
use konnector.Prelude.{
  ℕ, zero, suc, ◌+◌, ◌≡◌, ◌≤◌, ◌<◌, Bool, true, false, not, Option, none, some, List, arith,
  if◌then◌else◌, Checked, ok, err, Text, drop, Bool-cases, Result-cases, inl, inr,
}

pub record Host : Type 0 where
  pub current : Option Text
  pub rollback_restarts : ℕ

-- The answers during one activation. The service and the health endpoint are asked several times.
pub record Answers : Type 0 where
  pub canonicalize : Text → Option Text
  pub removes_link : Bool
  pub symlink : Text → Checked Text
  pub install_cli_link : Checked Text
  pub install_service : Checked Text
  pub restart_or_start : Checked Text
  pub is_active : ℕ → Bool
  pub health_check : ℕ → Bool
  pub prune : Checked Text

pub data ActivationError : Type 0 where
  command_failed : Text → ActivationError
  not_started unhealthy : ActivationError

abbrev as_failed : Checked Text → Checked ActivationError
as_failed (ok done) = ok tt
as_failed (err e) = err (command_failed e)

-- The attempts from a number on, until one succeeds.
unfoldable pub wait_for : (ℕ → Bool) → ℕ → ℕ → Bool
wait_for succeeds attempt zero = false
wait_for succeeds attempt (suc left) =
    let later = wait_for succeeds (attempt + 1) left in if succeeds attempt then true else later

unfoldable pub wait_for_health : Answers → Bool
unfolding wait_for
wait_for_health a = wait_for a.health_check 1 20

unfoldable pub wait_for_service : Answers → Bool
unfolding wait_for
wait_for_service a = wait_for a.is_active 1 15

-- The old link is removed first: where the new one cannot be made there is none, or the old one if
-- it could not be removed.
unfoldable pub link_current : Answers → Text → Host → Host × Checked ActivationError
link_current a release host = elim (a.symlink release) [
  | ok _ ↦ (record host { current = some release }, ok tt)
  | err e ↦ (
    record host { current = if a.removes_link then none else host.current },
    err (command_failed e),
  )
]

-- Back to the previous release, if there was one.
unfoldable pub roll_back : Answers → Option Text → Host → Host
unfolding link_current
roll_back a none host = host
roll_back a (some previous) host =
    let linked = (link_current a previous host).0 in
    record linked { rollback_restarts = linked.rollback_restarts + 1 }

-- From the service on, once the release is linked.
unfoldable pub settle : Answers → Option Text → Host → Host × Checked ActivationError
unfolding wait_for_service wait_for_health roll_back
settle a previous host =
    if not (wait_for_service a)
    then (roll_back a previous host, err not_started)
    else if not (wait_for_health a)
    then (roll_back a previous host, err unhealthy)
    else (host, as_failed a.prune)

unfoldable pub start_release : Answers → Option Text → Host → Host × Checked ActivationError
unfolding settle
start_release a previous host = elim a.install_cli_link [
  | err e ↦ (host, err (command_failed e))
  | ok _ ↦ elim a.install_service [
    | err e ↦ (host, err (command_failed e))
    | ok _ ↦ elim a.restart_or_start [
      | err e ↦ (host, err (command_failed e))
      | ok _ ↦ settle a previous host
    ]
  ]
]

-- `current.read_link().ok().and_then(|path| path.canonicalize().ok())`
unfoldable pub previous_release : Answers → Host → Option Text
previous_release a host = elim host.current [ none ↦ none | some path ↦ a.canonicalize path ]

start_linked :
    Answers → Option Text → Host × Checked ActivationError → Host × Checked ActivationError
unfolding start_release
start_linked a previous (host, ok done) = start_release a previous host
start_linked a previous (host, err e) = (host, err e)

unfoldable pub activate_release : Answers → Text → Host → Host × Checked ActivationError
unfolding start_linked link_current previous_release
activate_release a release host =
    start_linked a (previous_release a host) (link_current a release host)

abbrev keep_releases : ℕ
keep_releases = 5

-- `prune_releases`: the releases, the newest first, that are removed.
unfoldable pub pruned : List Text → List Text
pruned newest_first = drop keep_releases newest_first

pub wait_for-succeeds :
    (succeeds : ℕ → Bool) (attempt left : ℕ)
    → wait_for succeeds attempt left ≡ true
    → (n : ℕ) × (attempt ≤ n) × (n < attempt + left) × (succeeds n ≡ true)
unfolding wait_for
wait_for-succeeds succeeds attempt zero h = cc
wait_for-succeeds succeeds attempt (suc left) h = elim (Bool-cases (succeeds attempt)) [
  | inl now ↦ (attempt, omega arith, omega arith, now)
  | inr not_yet ↦
      let (n, after, before, there) =
        wait_for-succeeds succeeds (attempt + 1) left (ground arith) in
      (n, omega (arith, after), omega (arith, before), there)
]

-- A success: the link is to the release, and the service and the health endpoint answered in time.
pub record IsActivated (a : Answers) (release : Text) (host : Host) : Type 0 where
  pub linked : host.current ≡ some release
  pub active : (n : ℕ) × (1 ≤ n) × (n ≤ 15) × (a.is_active n ≡ true)
  pub healthy : (n : ℕ) × (1 ≤ n) × (n ≤ 20) × (a.health_check n ≡ true)

abbrev linked_host : Text → Host → Host
linked_host release host = record host { current = some release }

settle-ok :
    (a : Answers) (previous : Option Text) (release : Text) (host : Host)
    → (settle a previous (linked_host release host)).1 ≡ ok tt
    → IsActivated a release (settle a previous (linked_host release host)).0
unfolding settle
settle-ok a previous release host h = elim (Bool-cases (wait_for_service a)) [
  | inr late ↦ absurd (ground arith)
  | inl up ↦ elim (Bool-cases (wait_for_health a)) [
    | inr late ↦ absurd (ground arith)
    | inl well ↦
        let (n, low, high, there) = wait_for-succeeds a.is_active 1 15 up in
        let (m, low', high', there') = wait_for-succeeds a.health_check 1 20 well in
        record {
          linked = ground arith;
          active = (n, low, omega (arith, high), there);
          healthy = (m, low', omega (arith, high'), there');
        }
  ]
]

activate_release-started :
    (a : Answers) (release : Text) (host : Host)
    → (activate_release a release host).1 ≡ ok tt
    → activate_release a release host
      ≡ settle a (previous_release a host) (linked_host release host)
unfolding activate_release start_linked start_release link_current
activate_release-started a release host h = elim (Result-cases (a.symlink release)) [
  | inr (e, failed) ↦ absurd (ground arith)
  | inl (_, linked) ↦ elim (Result-cases a.install_cli_link) [
    | inr (e, failed) ↦ absurd (ground arith)
    | inl (_, cli) ↦ elim (Result-cases a.install_service) [
      | inr (e, failed) ↦ absurd (ground arith)
      | inl (_, service) ↦ elim (Result-cases a.restart_or_start) [
        | inr (e, failed) ↦ absurd (ground arith)
        | inl (_, run) ↦ ground (arith, linked, cli, service, run)
      ]
    ]
  ]
]

-- A release is reported as active only if the link is to it, the service came up within fifteen
-- attempts, and the health endpoint answered within twenty.
pub activate_release-IsActivated :
    (a : Answers) (release : Text) (host : Host)
    → (activate_release a release host).1 ≡ ok tt
    → IsActivated a release (activate_release a release host).0
activate_release-IsActivated a release host h =
    let started = activate_release-started a release host h in
    rw started (settle-ok a (previous_release a host) release host (rw (← started) h))

-- The commands that come before the service is waited for all succeed.
pub record IsLaunched (a : Answers) (release : Text) : Type 0 where
  pub linked : a.symlink release ≡ ok tt
  pub cli : a.install_cli_link ≡ ok tt
  pub unit : a.install_service ≡ ok tt
  pub run : a.restart_or_start ≡ ok tt
