-- ===== src/Acme/Issuance/Cleared.antt =====
-- Which challenges are still answered after an issuance of src/acme.rs.
use konnector.Prelude.{
  ◌≡◌, refl, none, some, List, [], ◌∷◌, ◌++◌, arith, sym, ap, if◌then◌else◌, Result, ok, err,
  Checked, Text, All, Bool, true, false, ◌∙◌, Result-cases, inl, inr,
}
use konnector.Prelude.StringLaws.{str_eq_comm}
use konnector.Prelude.Sorting.{mem}
use konnector.Acme.Challenges.{
  Challenges, challenge_response, set_challenge, clear_challenge, challenge_response-clear,
}
use konnector.Acme.Issuance.{
  Challenge, Authorization, Order, AcmeError, authorize, clear_all, as_written, finish_order,
  poll_order, issue_certificate_async, tokens_of, challenges_of, Distinct, IsServed,
}
use konnector.Acme.Issuance.Authorization.{valid, pending}
use konnector.Acme.Issuance.OrderStatus.{ready, not_ready}
use konnector.Acme.Issuance.AcmeError.{
  account_failed, new_order_failed, authorization_failed, set_ready_failed, no_http01_challenge,
  poll_ready_failed, order_not_ready, finalize_failed, download_failed, write_failed,
}
use konnector.Acme.Issuance.Served.{
  authorize-others, authorize-ready, authorize-refused, authorize-tokens, authorize-IsServed,
}

challenge_response-clear_all :
    (token : Text) (tokens : List Text) (store : Challenges)
    → challenge_response token (clear_all tokens store)
      ≡ (if mem token tokens then none else challenge_response token store)
unfolding clear_all
challenge_response-clear_all token [] store = refl
challenge_response-clear_all token (t ∷ tokens) store = ground (
  arith,
  challenge_response-clear_all token tokens (clear_challenge t store),
  challenge_response-clear t token store,
  str_eq_comm t token,
)

-- The ends of an issuance that take its challenges out of the store again.
abbrev pub clears_up_after : AcmeError → Bool
clears_up_after (order_not_ready status) = true
clears_up_after (write_failed e) = true
clears_up_after (account_failed e) = false
clears_up_after (new_order_failed e) = false
clears_up_after (authorization_failed e) = false
clears_up_after (set_ready_failed e) = false
clears_up_after no_http01_challenge = false
clears_up_after (poll_ready_failed e) = false
clears_up_after (finalize_failed e) = false
clears_up_after (download_failed e) = false

abbrev pub clears_up : Checked AcmeError → Bool
clears_up (ok done) = true
clears_up (err e) = clears_up_after e

authorize-keeps :
    (authorizations : List (Result Text Authorization)) (tokens : List Text) (store : Challenges)
    {e : AcmeError}
    → (authorize authorizations tokens store).1 ≡ err e
    → clears_up_after e ≡ false
unfolding authorize
authorize-keeps [] tokens store h = cc
authorize-keeps (err reason ∷ rest) tokens store {e} h =
    let same : authorization_failed reason ≡ e = cc in ap clears_up_after (sym same)
authorize-keeps (ok valid ∷ rest) tokens store h = authorize-keeps rest tokens store h
authorize-keeps (ok (pending none) ∷ rest) tokens store {e} h =
    let same : no_http01_challenge ≡ e = cc in ap clears_up_after (sym same)
authorize-keeps (ok (pending (some c)) ∷ rest) tokens store {e} h =
    let served = set_challenge c.token c.key_authorization store in
    elim (Result-cases c.set_ready) [
      | inl (done, f) ↦
          authorize-keeps rest (tokens ++ c.token ∷ []) served
            (sym (ap (λ r. r.1) (authorize-ready c rest tokens store f)) ∙ h)
      | inr (reason, f) ↦
          let refused = authorize-refused c rest tokens store f in
          let same : set_ready_failed reason ≡ e = cc in ap clears_up_after (sym same)
    ]

finish_order-store :
    (order : Order) (write : Text → Text → Checked Text) (tokens : List Text) (store : Challenges)
    → (finish_order order write tokens store).0 ≡ (
        if clears_up (finish_order order write tokens store).1
        then clear_all tokens store
        else store)
unfolding finish_order
finish_order-store order write tokens store = elim (Result-cases order.finalize) [
  | inr (e, f) ↦ rw f refl
  | inl (key, f) ↦ elim (Result-cases order.poll_certificate) [
    | inr (e, g) ↦ rw f (rw g refl)
    | inl (certificate, g) ↦ rw f (rw g (written (write certificate key)))
  ]
]
  where
    written :
        (w : Checked Text)
        → clear_all tokens store
          ≡ (if clears_up (as_written w) then clear_all tokens store else store)
    written (ok done) = refl
    written (err e) = refl

poll_order-store :
    (order : Order) (write : Text → Text → Checked Text) (store : Challenges) (tokens : List Text)
    → (poll_order order write (store, ok tokens)).0 ≡ (
        if clears_up (poll_order order write (store, ok tokens)).1
        then clear_all tokens store
        else store)
unfolding poll_order
poll_order-store order write store tokens = elim (Result-cases (order.poll_ready store)) [
  | inr (e, f) ↦ rw (f, poll_order) refl
  | inl (ready, f) ↦ rw (f, poll_order) (finish_order-store order write tokens store)
  | inl (not_ready status, f) ↦ rw (f, poll_order) refl
]

-- A value that is one of two by a test, at an observation of both.
by_test {ℓ κ} :
    {A : Type ℓ} {B : Type κ} (look : A → B) (then_value else_value : A) {value : A} {seen : B}
    (test : Bool)
    → value ≡ (if test then then_value else else_value)
    → (test ≡ true → look then_value ≡ seen)
    → look value ≡ (if test then seen else look else_value)
by_test look then_value else_value true is_it there = ap look is_it ∙ there refl
by_test look then_value else_value false is_it there = ap look is_it

by_end {ℓ} :
    {A : Type ℓ} (cleared : A) {value left : A} {test : Bool}
    → test ≡ false
    → value ≡ (if test then cleared else left)
    → value ≡ left
by_end cleared {test = true} fails is_it = cc
by_end cleared {test = false} fails is_it = is_it

-- The answer for a token after the poll, by how the loop before it ended: `left` is its store,
-- and `active` are the tokens of the order.
poll_order-clears :
    (order : Order) (write : Text → Text → Checked Text) (active : List Text) (token : Text)
    (before left : Challenges) (end : Result AcmeError (List Text))
    → ((result : List Text) → end ≡ ok result → result ≡ active)
    → ((e : AcmeError) → end ≡ err e → clears_up_after e ≡ false)
    → (mem token active ≡ false → challenge_response token left ≡ challenge_response token before)
    → (let after = poll_order order write (left, end) in
        challenge_response token after.0 ≡ (
          if clears_up after.1
          then (if mem token active then none else challenge_response token before)
          else challenge_response token left))
unfolding poll_order
poll_order-clears order write active token before left (err e) same keeps others =
    rw (keeps e refl) refl
poll_order-clears order write active token before left (ok tokens) same keeps others =
    let polled = poll_order order write (left, ok tokens) in
    let cleared = challenge_response-clear_all token tokens left in
    let of_order = ap (mem token) (same tokens refl) in
    by_test (challenge_response token) (clear_all tokens left) left (clears_up polled.1)
      (poll_order-store order write left tokens)
      (λ clears. ground (arith, cleared, of_order, others))

-- With an account and an order, where the issuance succeeds, finds its order not ready or cannot
-- write the files, every token of the authorizations that were not valid is unanswered again, and
-- any other has the answer that it had before; at every other end the answers are those that the
-- loop over the authorizations left.
pub issue_certificate_async-clears :
    (order : Order) (write : Text → Text → Checked Text) (store : Challenges) (token : Text)
    → (let after = issue_certificate_async (ok tt) (ok order) write store in
        challenge_response token after.0 ≡ (
          if clears_up after.1
          then (if mem token (tokens_of order.authorizations)
              then none
              else challenge_response token store)
          else challenge_response token (authorize order.authorizations [] store).0))
unfolding issue_certificate_async
issue_certificate_async-clears order write store token =
    let looped = authorize order.authorizations [] store in
    poll_order-clears order write (tokens_of order.authorizations) token store looped.0 looped.1
      (λ result. authorize-tokens order.authorizations [] store)
      (λ e. authorize-keeps order.authorizations [] store)
      (authorize-others token order.authorizations [] store)

-- Where the authorizations went through and have distinct tokens, but the poll, the finalisation
-- or the download then fails, the challenges are still answered after the issuance.
pub issue_certificate_async-leaks :
    (order : Order) (write : Text → Text → Checked Text) (store : Challenges) (tokens : List Text)
    → Distinct (tokens_of order.authorizations)
    → (authorize order.authorizations [] store).1 ≡ ok tokens
    → clears_up (issue_certificate_async (ok tt) (ok order) write store).1 ≡ false
    → All
        (IsServed (issue_certificate_async (ok tt) (ok order) write store).0)
        (challenges_of order.authorizations)
unfolding issue_certificate_async
issue_certificate_async-leaks order write store tokens distinct through fails =
    still (challenges_of order.authorizations)
      (authorize-IsServed order.authorizations [] store tokens distinct through)
  where
    after : Challenges
    after = (issue_certificate_async (ok tt) (ok order) write store).0

    same :
        (token : Text)
        → challenge_response token after
          ≡ challenge_response token (authorize order.authorizations [] store).0
    same token = by_end _ fails (issue_certificate_async-clears order write store token)

    still :
        (cs : List Challenge)
        → All (IsServed (authorize order.authorizations [] store).0) cs
        → All (IsServed after) cs
    still [] h = tt
    still (c ∷ cs) (h, rest) = (same c.token ∙ h, still cs rest)
