-- ===== src/Domains/Claims.antt =====
-- src/domain_routing.rs: `DomainClaim`, which listener and kind of traffic of a host name is taken.
-- `claim` returns the changed value; the value that a failed claim leaves is dropped with the trial
-- map of `filter_valid_sites`.
use konnector.Prelude.{
  ◌≡◌, ◌≢◌, Bool, true, false, ◌||◌, ◌&&◌, arith, if◌then◌else◌, Result, ok, err, ◌>>=◌,
}
use konnector.Configs.Listen
use konnector.Configs.Listen.{ListenMode}
use konnector.Configs.Traffic
use konnector.Configs.Traffic.{TrafficMode}

pub record ProtocolClaim : Type 0 where
  pub http : Bool
  pub websocket : Bool

pub record DomainClaim : Type 0 where
  pub plain : ProtocolClaim
  pub tls : ProtocolClaim

-- DomainClaim::default
abbrev pub unclaimed : DomainClaim
unclaimed = record {
  plain = record { http = false; websocket = false };
  tls = record { http = false; websocket = false };
}

-- "http traffic on http listen" and so on
pub data ClaimError : Type 0 where
  http_on_http websocket_on_http http_on_https websocket_on_https : ClaimError

claim_protocol :
    ClaimError → ClaimError → ProtocolClaim → TrafficMode → Result ClaimError ProtocolClaim
claim_protocol http_taken websocket_taken c traffic =
    if traffic.http && c.http
    then err http_taken
    else if traffic.websocket && c.websocket
    then err websocket_taken
    else ok (record { http = c.http || traffic.http; websocket = c.websocket || traffic.websocket })

claim_plain : ListenMode → TrafficMode → DomainClaim → Result ClaimError DomainClaim
unfolding claim_protocol
claim_plain listen traffic c =
    if listen.http
    then (claim_protocol http_on_http websocket_on_http c.plain traffic >>= λ p.
        ok (record c { plain = p }))
    else ok c

claim_tls : ListenMode → TrafficMode → DomainClaim → Result ClaimError DomainClaim
unfolding claim_protocol
claim_tls listen traffic c =
    if listen.https
    then (claim_protocol http_on_https websocket_on_https c.tls traffic >>= λ p.
        ok (record c { tls = p }))
    else ok c

unfoldable pub claim : DomainClaim → ListenMode → TrafficMode → Result ClaimError DomainClaim
unfolding claim_plain claim_tls
claim c listen traffic = claim_plain listen traffic c >>= claim_tls listen traffic

-- Whether one combination of listener and traffic is taken.
unfoldable pub taken : DomainClaim → Bool → Bool → Bool
taken c https websocket =
    let p = if https then c.tls else c.plain in if websocket then p.websocket else p.http

-- Whether a site with these modes answers on one combination.
unfoldable pub wants : ListenMode → TrafficMode → Bool → Bool → Bool
wants listen traffic https websocket =
    Listen.accepts listen https && Traffic.accepts traffic websocket

-- A successful claim takes exactly what the modes want beside what was taken, and nothing of what
-- they want was taken before.
pub claim-taken :
    (c : DomainClaim) (listen : ListenMode) (traffic : TrafficMode) (https websocket : Bool)
    {c' : DomainClaim}
    → claim c listen traffic ≡ ok c'
    → (taken c' https websocket ≡ (taken c https websocket || wants listen traffic https websocket))
      × ((taken c https websocket && wants listen traffic https websocket) ≡ false)
unfolding claim taken wants Listen.accepts Traffic.accepts
claim-taken c listen traffic true true h = ground arith
claim-taken c listen traffic true false h = ground arith
claim-taken c listen traffic false true h = ground arith
claim-taken c listen traffic false false h = ground arith

-- A claim whose modes want nothing that is taken succeeds.
pub claim_free :
    (c : DomainClaim) (listen : ListenMode) (traffic : TrafficMode)
    → ((https websocket : Bool)
        → (taken c https websocket && wants listen traffic https websocket) ≡ false)
    → (e : ClaimError) → claim c listen traffic ≢ err e
unfolding claim taken wants Listen.accepts Traffic.accepts
claim_free c listen traffic free e =
    ground (arith, free true true, free true false, free false true, free false false)
