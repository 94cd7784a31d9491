-- ===== src/Proxy/Handler/Rewritten.antt =====
-- What the redirects leave of a session that they do not answer: its headers, and so its site.
use konnector.Prelude.{
  ◌≡◌, ap, ◌∙◌, none, some, List, arith, Text, codes, ok, Option-cases, >>=-eq-ok, inl, inr, find,
}
use konnector.Configs.Types.{RedirectRule, RedirectBehavior, redirect, rewrite}
use konnector.Session.{Session, is_upgrade_request}
use konnector.Http.{HttpLib, Uri}
use konnector.Domains.Sites.{site_for, request_host}
use konnector.Redirects
use konnector.Redirects.{destination, matches, redirect_http_to_https, rewrite_request, apply_rule}
use konnector.Proxy.Runtime.{SiteRuntime}

-- The session with another URI.
abbrev moved : Session → Uri → Session
moved s uri = record s { path = uri.path; query = uri.query; authority = uri.authority }

moved-site_for :
    (s : Session) (uri : Uri) (host : Text) (sites : List SiteRuntime)
    → s.header (codes "host") ≡ some host
    → site_for (moved s uri) sites ≡ site_for s sites
unfolding site_for request_host is_upgrade_request
moved-site_for s uri host sites named = ground arith

rewrite_request-moved :
    (lib : HttpLib) (s s' : Session) (rule : RedirectRule)
    → rewrite_request lib s rule ≡ ok s'
    → (uri : Uri) × (s' ≡ moved s uri)
unfolding rewrite_request
rewrite_request-moved lib s s' rule h =
    elim (Option-cases (lib.parse_uri (Redirects.keep_query (destination rule s.path) s.query))) [
      | inl e ↦ absurd (ground arith)
      | inr (uri, e) ↦ (uri, ground arith)
    ]

-- A request that names its host in a header keeps its site through a rewrite of its URI.
rewrite_request-site_for :
    (lib : HttpLib) (s s' : Session) (rule : RedirectRule) (host : Text) (sites : List SiteRuntime)
    → s.header (codes "host") ≡ some host
    → rewrite_request lib s rule ≡ ok s'
    → site_for s' sites ≡ site_for s sites
rewrite_request-site_for lib s s' rule host sites named h =
    let (uri, e) = rewrite_request-moved lib s s' rule h in
    ap (λ t. site_for t sites) e ∙ moved-site_for s uri host sites named

apply_rule-site_for :
    (lib : HttpLib) (s s' : Session) (site : SiteRuntime) (rule : RedirectRule)
    (behavior : RedirectBehavior) (host : Text) (sites : List SiteRuntime)
    → s.header (codes "host") ≡ some host
    → apply_rule lib behavior s site rule ≡ ok (s', none)
    → site_for s' sites ≡ site_for s sites
unfolding apply_rule
apply_rule-site_for lib s s' site rule redirect host sites named h = cc
apply_rule-site_for lib s s' site rule rewrite host sites named h =
    let (t, made, e) = >>=-eq-ok (rewrite_request lib s rule) (Redirects.unanswered lib) h in
    rewrite_request-site_for lib s s' rule host sites named (ground arith)

pub apply-site_for :
    (lib : HttpLib) (s s' : Session) (site : SiteRuntime) (host : Text) (sites : List SiteRuntime)
    → s.header (codes "host") ≡ some host
    → Redirects.apply lib s site ≡ ok (s', none)
    → site_for s' sites ≡ site_for s sites
unfolding Redirects.apply
apply-site_for lib s s' site host sites named h =
    elim (Option-cases (redirect_http_to_https s site)) [
      | inr (r, e) ↦ absurd (ground arith)
      | inl e ↦ elim (Option-cases (find (λ rule. matches rule s.path) site.redirects)) [
        | inl missed ↦ ap (λ t. site_for t sites) (ground arith)
        | inr (rule, found) ↦
            apply_rule-site_for lib s s' site rule rule.behavior host sites named (ground arith)
      ]
    ]

pub no_host-site_for :
    (s : Session) (sites : List SiteRuntime)
    → s.header (codes "host") ≡ none
    → s.authority ≡ none
    → site_for s sites ≡ none
unfolding site_for request_host
no_host-site_for s sites unnamed nowhere = ground arith

apply_rule-header :
    (lib : HttpLib) (s s' : Session) (site : SiteRuntime) (rule : RedirectRule)
    (behavior : RedirectBehavior)
    → apply_rule lib behavior s site rule ≡ ok (s', none)
    → s'.header ≡ s.header
unfolding apply_rule
apply_rule-header lib s s' site rule redirect h = cc
apply_rule-header lib s s' site rule rewrite h =
    let (t, made, e) = >>=-eq-ok (rewrite_request lib s rule) (Redirects.unanswered lib) h in
    let (uri, same) = rewrite_request-moved lib s s' rule (ground arith) in ap (λ t. t.header) same

pub apply-header :
    (lib : HttpLib) (s s' : Session) (site : SiteRuntime)
    → Redirects.apply lib s site ≡ ok (s', none)
    → s'.header ≡ s.header
unfolding Redirects.apply
apply-header lib s s' site h = elim (Option-cases (redirect_http_to_https s site)) [
  | inr (r, e) ↦ absurd (ground arith)
  | inl e ↦ elim (Option-cases (find (λ rule. matches rule s.path) site.redirects)) [
    | inl missed ↦ ground arith
    | inr (rule, found) ↦ apply_rule-header lib s s' site rule rule.behavior (ground arith)
  ]
]
