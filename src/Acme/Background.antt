-- ===== src/Acme/Background.antt =====
-- src/acme.rs: `start_background_issuer`, the thread that requests the first certificate. A restart
-- is the end of the process, so the outcome says whether there is one; the delay is not modelled.
use konnector.Prelude.{ℕ, Option, none, some, List, Text, Checked, ok, err}
use konnector.Acme.Backoff.{BackoffFile, Issuer, IssueError, backoff_remaining, issue_certificate}

pub data IssuerEnd : Type 0 where
  skipped : ℕ → IssuerEnd
  restart : IssuerEnd
  gave_up : IssueError → IssuerEnd

abbrev issuer_end : Checked IssueError × BackoffFile → IssuerEnd × BackoffFile
issuer_end (ok done, file) = (restart, file)
issuer_end (err e, file) = (gave_up e, file)

-- From the look at the pause on. The pause is asked for again at the time `before`, after the delay.
issue_after :
    Issuer → List Text → ℕ → ℕ → Checked Text → Option ℕ × BackoffFile → IssuerEnd × BackoffFile
unfolding issue_certificate
issue_after issuer domains before now issue (some remaining, file) = (skipped remaining, file)
issue_after issuer domains before now issue (none, file) =
    issuer_end (issue_certificate issuer domains before now issue file)

unfoldable pub start_background_issuer :
    Issuer → List Text → ℕ → ℕ → ℕ → Checked Text → BackoffFile → IssuerEnd × BackoffFile
unfolding issue_after backoff_remaining
start_background_issuer issuer domains first before now issue file =
    issue_after issuer domains before now issue (backoff_remaining first file)
