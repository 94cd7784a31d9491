-- ===== src/Acme/Backoff.antt =====
-- src/acme.rs: the pause after a failed issuance (`backoff_remaining`, `set_backoff_from_error`,
-- `issue_certificate`) and the decision at startup (`prepare_for_startup`). The file that holds the
-- end of the pause is a state, its text or nothing; what comes of its directory and of writing it is
-- an argument, and a file that is removed is gone. The clock, the ACME protocol, the runtime for it
-- and the inspection of certificates are arguments.
use konnector.Prelude.{
  ℕ, ◌≡◌, ◌+◌, ◌-◌, ◌*◌, ◌^◌, ◌≤◌, refl, Bool, true, false, ◌||◌, Option, none, some, List, arith,
  Text, codes, contains, to_ascii_lowercase, trim, parse_uint, print_uint, if◌then◌else◌, ltb, leb,
  Result, ok, err, ◌>>=◌, Checked,
}
use konnector.Prelude.Numbers.{parse_uint-print_uint}
use konnector.Validation.Upstream.{is_empty_list}

abbrev backoff_default_secs : ℕ
backoff_default_secs = 15 * 60

abbrev backoff_rate_limit_secs : ℕ
backoff_rate_limit_secs = 60 * 60

abbrev pub u64_max : ℕ
u64_max = 2 ^ 64 - 1

-- The file `retry_after`.
abbrev pub BackoffFile : Type 0
BackoffFile = Option Text

unfoldable pub is_rate_limit_error : Text → Bool
is_rate_limit_error error =
    let lower = to_ascii_lowercase error in
    contains lower (codes "rate limit")
    || contains lower (codes "ratelimit")
    || contains lower (codes "too many failed authorizations")
    || contains lower (codes "too many certificates")
    || contains lower (codes "retry after")

-- `backoff_remaining` at the time `now`: the seconds left, and the file, removed if the pause is over.
still_paused : ℕ → Text → ℕ → Option ℕ × BackoffFile
still_paused now raw until = if ltb now until then (some (until - now), some raw) else (none, none)

unfoldable pub backoff_remaining : ℕ → BackoffFile → Option ℕ × BackoffFile
unfolding still_paused
backoff_remaining now none = (none, none)
backoff_remaining now (some raw) = elim (parse_uint u64_max (trim raw)) [
  | none ↦ (none, some raw)
  | some until ↦ still_paused now raw until
]

unfoldable pub backoff_secs : Text → ℕ
backoff_secs error =
    if is_rate_limit_error error then backoff_rate_limit_secs else backoff_default_secs

-- saturating_add
abbrev pub saturating_add : ℕ → ℕ → ℕ
saturating_add a b = if leb (a + b) u64_max then a + b else u64_max

-- What the machine does for an issuance: whether the runtime for the protocol can be built, whether
-- the directory of the file is there or can be made, and the file after an attempt to write a text.
pub record Issuer : Type 0 where
  pub runtime : Checked Text
  pub has_dir : Bool
  pub write : Text → BackoffFile → BackoffFile

-- The text of the end of the pause after an error.
unfoldable pub pause_text : ℕ → Text → Text
unfolding backoff_secs
pause_text now error = print_uint (saturating_add now (backoff_secs error))

-- `set_backoff_from_error`: there is no pause if the directory or the file cannot be written.
unfoldable pub set_backoff_from_error : Issuer → ℕ → Text → BackoffFile → BackoffFile
unfolding pause_text
set_backoff_from_error issuer now error file =
    if issuer.has_dir then issuer.write (pause_text now error) file else file

pub data IssueError : Type 0 where
  no_domain : IssueError
  paused : ℕ → IssueError
  no_runtime failed : Text → IssueError

-- After the ACME protocol ended, at the time `now`: a success clears the pause, a failure sets it.
after_issue : Issuer → ℕ → Checked Text → BackoffFile → Checked IssueError × BackoffFile
unfolding set_backoff_from_error
after_issue issuer now (ok done) file = (ok tt, none)
after_issue issuer now (err error) file =
    (err (failed error), set_backoff_from_error issuer now error file)

start_issue : Issuer → ℕ → Checked Text → Option ℕ × BackoffFile → Checked IssueError × BackoffFile
unfolding after_issue
start_issue issuer now issue (some remaining, file) = (err (paused remaining), file)
start_issue issuer now issue (none, file) = elim issuer.runtime [
  | err e ↦ (err (no_runtime e), file)
  | ok _ ↦ after_issue issuer now issue file
]

-- `issue_certificate`, asked at the time `before`; `issue` is what the protocol comes to at `now`.
unfoldable pub issue_certificate :
    Issuer → List Text → ℕ → ℕ → Checked Text → BackoffFile → Checked IssueError × BackoffFile
unfolding start_issue
issue_certificate issuer domains before now issue file =
    if is_empty_list domains
    then (err no_domain, file)
    else start_issue issuer now issue (backoff_remaining before file)

-- The pause can be written.
abbrev pub CanPause : Issuer → Type 0
CanPause issuer =
    (issuer.runtime ≡ ok tt)
    × (issuer.has_dir ≡ true)
    × ((text : Text) (file : BackoffFile) → issuer.write text file ≡ some text)

-- Once the pause is over an issuance is tried again, and its success removes the pause.
pub issue_certificate-resumed :
    (issuer : Issuer) (domains : List Text) (now later then_now : ℕ) (error : Text)
    → issuer.runtime ≡ ok tt
    → is_empty_list domains ≡ false
    → now + backoff_secs error ≤ u64_max
    → now + backoff_secs error ≤ later
    → issue_certificate issuer domains later then_now (ok tt) (some (pause_text now error))
      ≡ (ok tt, none)
unfolding issue_certificate backoff_remaining pause_text
issue_certificate-resumed issuer domains now later then_now error built listed fits over =
    let read = parse_uint-print_uint u64_max (now + backoff_secs error) fits in
    ground (arith, built, read)

-- `validate_or_renewal_needed`, from whether the files are valid and whether they expire soon
renewal_needed : Checked Text → Bool → Result Text Bool
renewal_needed valid expires = valid >>= λ _. ok expires

-- A certificate that is missing is replaced by a temporary one, which `install` comes to.
provide : Bool → Checked Text → Result IssueError Bool
provide true install = ok true
provide false (ok done) = ok true
provide false (err error) = err (failed error)

-- `prepare_for_startup`: whether a certificate is to be requested
unfoldable pub prepare_for_startup :
    List Text → Checked Text → Bool → Bool → Checked Text → Result IssueError Bool
unfolding renewal_needed provide
prepare_for_startup domains valid expires files_exist install =
    if is_empty_list domains then err no_domain else elim (renewal_needed valid expires) [
      | ok false ↦ ok false
      | ok true ↦ provide files_exist install
      | err e ↦ provide files_exist install
    ]

-- Startup goes on without requesting a certificate only if the files are valid and do not expire
-- soon.
pub prepare_for_startup_lem :
    (domains : List Text) (valid : Checked Text) (expires files_exist : Bool)
    (install : Checked Text)
    → prepare_for_startup domains valid expires files_exist install ≡ ok false
    → (valid ≡ ok tt) × (expires ≡ false)
unfolding prepare_for_startup
prepare_for_startup_lem domains (ok done) expires true install h = (refl, ground arith)
prepare_for_startup_lem domains (ok done) expires false (ok _) h = (refl, ground arith)
prepare_for_startup_lem domains (ok done) expires false (err _) h = (refl, ground arith)
prepare_for_startup_lem domains (err e) expires true install h = absurd (ground arith)
prepare_for_startup_lem domains (err e) expires false (ok _) h = absurd (ground arith)
prepare_for_startup_lem domains (err e) expires false (err _) h = absurd (ground arith)
