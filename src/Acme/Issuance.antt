-- ===== src/Acme/Issuance.antt =====
-- src/acme.rs: `issue_certificate_async`. What the ACME client answers during one order is an
-- argument: the authorizations as a list, in the order of the stream, and the calls behind them. The
-- authority may look at the challenges that are served while the order is polled, so that answer
-- depends on the store. The store is the state; the store of a failure is the one that it leaves.
use konnector.Prelude.{
  ◌≡◌, refl, ◌||◌, not, ◌&&◌, Option, none, some, List, [], ◌∷◌, ◌++◌, arith, append_assoc,
  append-nil, sym, ap, if◌then◌else◌, Result, ok, err, Checked, Text, All, Bool, true, false,
  str_eq, is_some, any, ◌∙◌, Result-cases, inl, inr,
}
use mathlib.Core.Path.{subst}
use konnector.Prelude.StringLaws.{str_eq_comm, str_eq_refl}
use konnector.Prelude.Sorting.{mem}
use konnector.Acme.Challenges.{
  Challenges, challenge_response, set_challenge, clear_challenge, challenge_response-set,
  challenge_response-clear,
}
pub mod Served
pub mod Cleared

-- The HTTP-01 challenge of an authorization, and how `set_ready` ends.
pub record Challenge : Type 0 where
  pub token : Text
  pub key_authorization : Text
  pub set_ready : Checked Text

-- An authorization that is not valid has a challenge of its kind, or has none.
pub data Authorization : Type 0 where
  valid : Authorization
  pending : Option Challenge → Authorization

pub data OrderStatus : Type 0 where
  ready : OrderStatus
  not_ready : Text → OrderStatus

pub record Order : Type 0 where
  pub authorizations : List (Result Text Authorization)
  pub poll_ready : Challenges → Result Text OrderStatus
  pub finalize : Result Text Text
  pub poll_certificate : Result Text Text

pub data AcmeError : Type 0 where
  account_failed new_order_failed authorization_failed set_ready_failed : Text → AcmeError
  no_http01_challenge : AcmeError
  poll_ready_failed order_not_ready finalize_failed download_failed write_failed : Text → AcmeError

-- The loop over the authorizations, with the active tokens so far.
unfoldable pub authorize :
    List (Result Text Authorization)
    → List Text
    → Challenges
    → Challenges × Result AcmeError (List Text)
unfolding set_challenge
authorize [] tokens store = (store, ok tokens)
authorize (err e ∷ rest) tokens store = (store, err (authorization_failed e))
authorize (ok valid ∷ rest) tokens store = authorize rest tokens store
authorize (ok (pending none) ∷ rest) tokens store = (store, err no_http01_challenge)
authorize (ok (pending (some c)) ∷ rest) tokens store =
    let served = set_challenge c.token c.key_authorization store in
    elim c.set_ready [
      | ok _ ↦ authorize rest (tokens ++ c.token ∷ []) served
      | err e ↦ (served, err (set_ready_failed e))
    ]

-- `for token in &active_tokens { clear_challenge(token); }`
unfoldable pub clear_all : List Text → Challenges → Challenges
unfolding clear_challenge
clear_all [] store = store
clear_all (token ∷ tokens) store = clear_all tokens (clear_challenge token store)

abbrev pub as_written : Checked Text → Checked AcmeError
as_written (ok done) = ok tt
as_written (err e) = err (write_failed e)

-- From `finalize` on; `write` is `write_certificate_files`, which gets the certificate and its key.
unfoldable pub finish_order :
    Order → (Text → Text → Checked Text) → List Text → Challenges → Challenges × Checked AcmeError
unfolding clear_all
finish_order order write tokens store = elim order.finalize [
  | err e ↦ (store, err (finalize_failed e))
  | ok key ↦ elim order.poll_certificate [
    | err e ↦ (store, err (download_failed e))
    | ok certificate ↦ (clear_all tokens store, as_written (write certificate key))
  ]
]

-- Once the loop is over.
unfoldable pub poll_order :
    Order
    → (Text → Text → Checked Text)
    → Challenges × Result AcmeError (List Text)
    → Challenges × Checked AcmeError
unfolding finish_order clear_all
poll_order order write (store, err e) = (store, err e)
poll_order order write (store, ok tokens) = elim (order.poll_ready store) [
  | err e ↦ (store, err (poll_ready_failed e))
  | ok ready ↦ finish_order order write tokens store
  | ok (not_ready status) ↦ (clear_all tokens store, err (order_not_ready status))
]

-- `account` is what `load_or_create_account` gives, and `new_order` the order for the domains.
unfoldable pub issue_certificate_async :
    Checked Text
    → Result Text Order
    → (Text → Text → Checked Text)
    → Challenges
    → Challenges × Checked AcmeError
unfolding poll_order authorize
issue_certificate_async (err e) new_order write store = (store, err (account_failed e))
issue_certificate_async (ok done) (err e) write store = (store, err (new_order_failed e))
issue_certificate_async (ok done) (ok order) write store =
    poll_order order write (authorize order.authorizations [] store)

-- The tokens of the authorizations that are not valid yet.
abbrev pub tokens_of : List (Result Text Authorization) → List Text
tokens_of [] = []
tokens_of (err e ∷ rest) = tokens_of rest
tokens_of (ok valid ∷ rest) = tokens_of rest
tokens_of (ok (pending none) ∷ rest) = tokens_of rest
tokens_of (ok (pending (some c)) ∷ rest) = c.token ∷ tokens_of rest

-- The challenges that are set, and the condition that no two have one token.
abbrev pub challenges_of : List (Result Text Authorization) → List Challenge
challenges_of [] = []
challenges_of (err e ∷ rest) = challenges_of rest
challenges_of (ok valid ∷ rest) = challenges_of rest
challenges_of (ok (pending none) ∷ rest) = challenges_of rest
challenges_of (ok (pending (some c)) ∷ rest) = c ∷ challenges_of rest

abbrev pub Distinct : List Text → Type 0
Distinct [] = Unit
Distinct (t ∷ ts) = (mem t ts ≡ false) × Distinct ts

abbrev pub IsServed : Challenges → Challenge → Type 0
IsServed store c = challenge_response c.token store ≡ some c.key_authorization
