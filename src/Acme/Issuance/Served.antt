-- ===== src/Acme/Issuance/Served.antt =====
-- What the loop of src/acme.rs over the authorizations of an order leaves in the store of challenges.
use konnector.Prelude.{
  ◌≡◌, refl, none, some, List, [], ◌∷◌, ◌++◌, arith, append_assoc, append-nil, sym, ap, Result, ok,
  err, Text, All, false, ◌∙◌, Result-cases, inl, inr,
}
use mathlib.Core.Path.{subst}
use konnector.Prelude.StringLaws.{str_eq_comm, str_eq_refl}
use konnector.Prelude.Sorting.{mem}
use konnector.Acme.Challenges.{
  Challenges, challenge_response, set_challenge, challenge_response-set,
}
use konnector.Acme.Issuance.{
  Challenge, Authorization, authorize, tokens_of, challenges_of, Distinct, IsServed,
}
use konnector.Acme.Issuance.Authorization.{valid, pending}
use konnector.Acme.Issuance.AcmeError.{set_ready_failed}

-- The loop changes the answers for its own tokens at most.
pub authorize-others :
    (token : Text) (authorizations : List (Result Text Authorization)) (tokens : List Text)
    (store : Challenges)
    → mem token (tokens_of authorizations) ≡ false
    → challenge_response token (authorize authorizations tokens store).0
      ≡ challenge_response token store
unfolding authorize
authorize-others token [] tokens store other = refl
authorize-others token (err e ∷ rest) tokens store other = refl
authorize-others token (ok valid ∷ rest) tokens store other =
    authorize-others token rest tokens store other
authorize-others token (ok (pending none) ∷ rest) tokens store other = refl
authorize-others token (ok (pending (some c)) ∷ rest) tokens store other =
    let served = set_challenge c.token c.key_authorization store in
    let set = challenge_response-set c.token token c.key_authorization store in
    let same = str_eq_comm token c.token in
    let later = authorize-others token rest (tokens ++ c.token ∷ []) served in
    elim (Result-cases c.set_ready) [
      | inl (done, e) ↦ ground (arith, e, set, same, later, other)
      | inr (reason, e) ↦ ground (arith, e, set, same, other)
    ]

pub authorize-ready :
    (c : Challenge) (rest : List (Result Text Authorization)) (tokens : List Text)
    (store : Challenges) {done : Unit {0}}
    → c.set_ready ≡ ok done
    → authorize (ok (pending (some c)) ∷ rest) tokens store
      ≡ authorize rest (tokens ++ c.token ∷ []) (set_challenge c.token c.key_authorization store)
unfolding authorize
authorize-ready c rest tokens store e = rw e refl

pub authorize-refused :
    (c : Challenge) (rest : List (Result Text Authorization)) (tokens : List Text)
    (store : Challenges) {reason : Text}
    → c.set_ready ≡ err reason
    → (authorize (ok (pending (some c)) ∷ rest) tokens store).1 ≡ err (set_ready_failed reason)
unfolding authorize
authorize-refused c rest tokens store e = rw e refl

-- A loop that is left at its end has the tokens of all that was pending.
pub authorize-tokens :
    (authorizations : List (Result Text Authorization)) (tokens : List Text) (store : Challenges)
    {result : List Text}
    → (authorize authorizations tokens store).1 ≡ ok result
    → result ≡ tokens ++ tokens_of authorizations
unfolding authorize
authorize-tokens [] tokens store {result} h =
    let same : tokens ≡ result = cc in sym same ∙ sym (append-nil tokens)
authorize-tokens (err e ∷ rest) tokens store h = cc
authorize-tokens (ok valid ∷ rest) tokens store h = authorize-tokens rest tokens store h
authorize-tokens (ok (pending none) ∷ rest) tokens store h = cc
authorize-tokens (ok (pending (some c)) ∷ rest) tokens store h =
    let served = set_challenge c.token c.key_authorization store in
    elim (Result-cases c.set_ready) [
      | inl (done, e) ↦
          authorize-tokens rest (tokens ++ c.token ∷ []) served
            (sym (ap (λ r. r.1) (authorize-ready c rest tokens store e)) ∙ h)
          ∙ append_assoc tokens (c.token ∷ []) (tokens_of rest)
      | inr (reason, e) ↦
          let refused = authorize-refused c rest tokens store e in absurd (cc (refused, h))
    ]

-- When an order with distinct tokens is polled, every challenge of its authorizations that are
-- not valid yet is answered with its key authorisation.
pub authorize-IsServed :
    (authorizations : List (Result Text Authorization)) (tokens : List Text) (store : Challenges)
    (result : List Text)
    → Distinct (tokens_of authorizations)
    → (authorize authorizations tokens store).1 ≡ ok result
    → All (IsServed (authorize authorizations tokens store).0) (challenges_of authorizations)
unfolding authorize
authorize-IsServed [] tokens store result distinct h = tt
authorize-IsServed (err e ∷ rest) tokens store result distinct h = cc
authorize-IsServed (ok valid ∷ rest) tokens store result distinct h =
    authorize-IsServed rest tokens store result distinct h
authorize-IsServed (ok (pending none) ∷ rest) tokens store result distinct h = cc
authorize-IsServed (ok (pending (some c)) ∷ rest) tokens store result (fresh, distinct) h =
    let served = set_challenge c.token c.key_authorization store in
    elim (Result-cases c.set_ready) [
      | inl (done, e) ↦
          let step = authorize-ready c rest tokens store e in
          let later = tokens ++ c.token ∷ [] in
          let kept = authorize-others c.token rest later served fresh in
          let set = challenge_response-set c.token c.token c.key_authorization store in
          let here = str_eq_refl c.token in
          let first : IsServed (authorize rest later served).0 c =
            kept ∙ ground (arith, set, here) in
          let others =
            authorize-IsServed rest later served result distinct (sym (ap (λ r. r.1) step) ∙ h) in
          subst (λ s. All (IsServed s) (c ∷ challenges_of rest)) (sym (ap (λ r. r.0) step))
            (first, others)
      | inr (reason, e) ↦
          let refused = authorize-refused c rest tokens store e in absurd (cc (refused, h))
    ]
