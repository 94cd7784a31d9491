-- ===== src/Redirects/Laws.antt =====
-- What redirects keep of a request.
use konnector.Prelude.{
  ◌≡◌, ◌≢◌, >>=-eq-ok, refl, true, some, ◌++◌, arith, Text, codes, str_eq, find, ok, ◌>>=◌,
  drop-length-append, find-first, ◌⊎◌, inl, inr, Option-cases, Bool-cases, false, none, List, ◌∷◌,
  All,
}
use konnector.Prelude.StringLaws.{starts_with-eq, str_eq_refl, str_eq-eq}
use konnector.Session.{Session}
use konnector.Http.{HttpLib, Response}
use konnector.Configs.Types.{RedirectRule, RedirectBehavior, prefix, redirect, rewrite}
use konnector.Forwarding.{public_scheme}
use konnector.Proxy.Runtime.{SiteRuntime}
use konnector.Redirects.{
  matches, destination, redirection, https_location, redirect_http_to_https, apply_rule, apply,
  unanswered, redirect_location, rewrite_request,
}

-- A prefix rule takes exactly the paths `from` and rest to `to` and the same rest.
pub destination-prefix :
    (rule : RedirectRule) (path : Text)
    → rule.match_type ≡ prefix
    → matches rule path ≡ true
    → (rest : Text) × (path ≡ rule.from ++ rest) × (destination rule path ≡ rule.to ++ rest)
unfolding matches destination
destination-prefix rule path p m =
    let (rest, e) = starts_with-eq path rule.from (ground arith) in
    let cut = drop-length-append rule.from rest in (rest, e, rw (p, e, cut))

-- A site with `redirect_https` answers a request whose public scheme is http, whatever its rules,
-- with a 308 to the HTTPS location of the request.
pub apply-redirect_https :
    (lib : HttpLib) (s : Session) (site : SiteRuntime)
    → site.redirect_https ≡ true
    → public_scheme s site ≡ codes "http"
    → apply lib s site ≡ ok (s, some (redirection 308 (https_location s site)))
unfolding apply redirect_http_to_https
apply-redirect_https lib s site on plain =
    let http : str_eq (public_scheme s site) (codes "http") ≡ true =
      rw plain (str_eq_refl (codes "http")) in
    ground (arith, http)

redirect_http_to_https-answer :
    (s : Session) (site : SiteRuntime) (response : Response)
    → redirect_http_to_https s site ≡ some response
    → (site.redirect_https ≡ true)
      × (public_scheme s site ≡ codes "http")
      × (response ≡ redirection 308 (https_location s site))
unfolding redirect_http_to_https
redirect_http_to_https-answer s site response h =
    (ground arith, str_eq-eq (public_scheme s site) (codes "http") (ground arith), ground arith)

redirect_http_to_https-none :
    (s : Session) (site : SiteRuntime)
    → redirect_http_to_https s site ≡ none
    → (site.redirect_https ≡ false) ⊎ (public_scheme s site ≢ codes "http")
unfolding redirect_http_to_https
redirect_http_to_https-none s site h = elim (Bool-cases site.redirect_https) [
  | inr off ↦ inl off
  | inl on ↦ inr (λ e.
      let http : str_eq (public_scheme s site) (codes "http") ≡ true =
        rw e (str_eq_refl (codes "http")) in
      ground (arith, on, http))
]

not-rewrite_answers :
    (lib : HttpLib) (s s' : Session) (rule : RedirectRule) (response : Response)
    → (rewrite_request lib s rule >>= unanswered lib) ≢ ok (s', some response)
not-rewrite_answers lib s s' rule response h =
    let (t, _, e) = >>=-eq-ok (rewrite_request lib s rule) (unanswered lib) h in cc

apply_rule-answer :
    (lib : HttpLib) (s s' : Session) (site : SiteRuntime) (rule : RedirectRule)
    (behavior : RedirectBehavior) (response : Response)
    → apply_rule lib behavior s site rule ≡ ok (s', some response)
    → (behavior ≡ redirect)
      × (response ≡ redirection rule.status (redirect_location s site rule))
      × (s' ≡ s)
unfolding apply_rule
apply_rule-answer lib s s' site rule redirect response h = (refl, cc, cc)
apply_rule-answer lib s s' site rule rewrite response h =
    absurd (not-rewrite_answers lib s s' rule response h)

-- The 308 to HTTPS, and when it is the answer.
pub record IsToHttps (s : Session) (site : SiteRuntime) (response : Response) : Type 0 where
  pub wanted : site.redirect_https ≡ true
  pub plain : public_scheme s site ≡ codes "http"
  pub answer : response ≡ redirection 308 (https_location s site)

-- The answer of the site's first rule that matches the path, where HTTPS is not asked for.
pub record IsByRule (s : Session) (site : SiteRuntime) (response : Response) : Type 0 where
  pub no_upgrade : (site.redirect_https ≡ false) ⊎ (public_scheme s site ≢ codes "http")
  pub before : List RedirectRule
  pub rule : RedirectRule
  pub after : List RedirectRule
  pub rules : site.redirects ≡ before ++ rule ∷ after
  pub others : All (λ q. matches q s.path ≡ false) before
  pub matching : matches rule s.path ≡ true
  pub redirecting : rule.behavior ≡ redirect
  pub answer : response ≡ redirection rule.status (redirect_location s site rule)

-- Every answer of `apply` is the 308 to HTTPS, which a request gets only where the site asks for it
-- and the public scheme is http; or, where that is not so, it is that of the first rule of the site
-- that matches the path, which redirects, with the rule's status. An answered request is left as it
-- was.
pub apply-answer :
    (lib : HttpLib) (s s' : Session) (site : SiteRuntime) (response : Response)
    → apply lib s site ≡ ok (s', some response)
    → (s' ≡ s) × (IsToHttps s site response ⊎ IsByRule s site response)
unfolding apply
apply-answer lib s s' site response h = elim (Option-cases (redirect_http_to_https s site)) [
  | inr (r, e) ↦
      let (wanted, plain, answer) =
        redirect_http_to_https-answer s site response (ground (arith, e)) in
      (ground (arith, e), inl (record { wanted = wanted; plain = plain; answer = answer }))
  | inl e ↦ elim (Option-cases (find (λ rule. matches rule s.path) site.redirects)) [
    | inl missed ↦ absurd (ground arith)
    | inr (rule, found) ↦
        let (b, r, same) =
          apply_rule-answer lib s s' site rule rule.behavior response (ground arith) in
        let (before, after, split, others, passes) =
          find-first (λ q. matches q s.path) site.redirects rule found in
        (
          same,
          inr (record {
            no_upgrade = redirect_http_to_https-none s site e;
            before = before;
            rule = rule;
            after = after;
            rules = split;
            others = others;
            matching = passes;
            redirecting = b;
            answer = r;
          }),
        )
  ]
]
