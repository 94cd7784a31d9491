-- ===== src/Validation/Tcp.antt =====
-- src/validation.rs: `validate_tcp` and `filter_valid_tcp`. The set of ports is a list, which a
-- refused proxy may leave larger: its port is taken before its upstream is looked at.
use konnector.Prelude.{
  ℕ, ◌≡◌, true, false, not, List, [], ◌∷◌, arith, if◌then◌else◌, Checked, ok, err, ◌>>=◌, any, ◌==◌,
  is_empty, trim, Result-cases, Bool-cases, inl, inr, Text,
}
use konnector.Configs.Tcp.{
  TcpProxyConfig, TcpError, blank_listen, duplicate_port, listen_port, listen_address,
  upstream_address,
}

-- The part after the port was taken.
abbrev check_upstream : TcpProxyConfig → Checked TcpError
check_upstream proxy = upstream_address proxy.upstream >>= λ address. ok tt

unfoldable pub validate_tcp : TcpProxyConfig → List ℕ → List ℕ × Checked TcpError
validate_tcp proxy listens =
    if is_empty (trim proxy.listen) then (listens, err blank_listen) else elim (listen_port proxy) [
      | err e ↦ (listens, err e)
      | ok port ↦
          if any (λ p. p == port) listens
          then (listens, err (duplicate_port port))
          else (port ∷ listens, check_upstream proxy)
    ]

-- The loop, with the ports taken so far.
unfoldable pub filter_tcp_from : List TcpProxyConfig → List ℕ → List TcpProxyConfig
unfolding validate_tcp
filter_tcp_from [] listens = []
filter_tcp_from (proxy ∷ rest) listens =
    let disabled = filter_tcp_from rest listens in
    let (listens', checked) = validate_tcp proxy listens in
    let others = filter_tcp_from rest listens' in
    if not proxy.enabled then disabled else elim checked [ ok _ ↦ proxy ∷ others | err e ↦ others ]

unfoldable pub filter_valid_tcp : List TcpProxyConfig → List TcpProxyConfig
unfolding filter_tcp_from
filter_valid_tcp proxies = filter_tcp_from proxies []

-- What starting a proxy needs: a port that no other has, and addresses on both sides.
pub record IsStartable (proxy : TcpProxyConfig) (port : ℕ) : Type 0 where
  pub on : proxy.enabled ≡ true
  pub at_port : listen_port proxy ≡ ok port
  pub primary : Text
  pub listens : listen_address proxy ≡ ok primary
  pub target : Text
  pub reaches : upstream_address proxy.upstream ≡ ok target

-- Every proxy is startable, on a port that is neither taken nor that of a later one.
abbrev pub Startable : List ℕ → List TcpProxyConfig → Type 0
Startable taken [] = Unit
Startable taken (proxy ∷ rest) =
    (port : ℕ) × IsStartable proxy port
    × (any (λ p. p == port) taken ≡ false)
    × Startable (port ∷ taken) rest

listen_port-address :
    (proxy : TcpProxyConfig) {port : ℕ}
    → listen_port proxy ≡ ok port
    → (primary : Text) × (listen_address proxy ≡ ok primary)
unfolding listen_port
listen_port-address proxy h = elim (Result-cases (listen_address proxy)) [
  | inl (primary, e) ↦ (primary, e)
  | inr (e, failed) ↦ absurd (ground arith)
]

pub data TcpStep (proxy : TcpProxyConfig) (taken : List ℕ) (rest : List TcpProxyConfig)
    : Type 0 where
  accept :
      (port : ℕ)
      → IsStartable proxy port
      → any (λ p. p == port) taken ≡ false
      → filter_tcp_from (proxy ∷ rest) taken ≡ proxy ∷ filter_tcp_from rest (port ∷ taken)
      → TcpStep proxy taken rest
  pass :
      filter_tcp_from (proxy ∷ rest) taken ≡ filter_tcp_from rest taken → TcpStep proxy taken rest
  waste :
      (port : ℕ)
      → listen_port proxy ≡ ok port
      → filter_tcp_from (proxy ∷ rest) taken ≡ filter_tcp_from rest (port ∷ taken)
      → TcpStep proxy taken rest

new_port :
    (proxy : TcpProxyConfig) (taken : List ℕ) (rest : List TcpProxyConfig) (port : ℕ)
    → proxy.enabled ≡ true
    → is_empty (trim proxy.listen) ≡ false
    → listen_port proxy ≡ ok port
    → any (λ p. p == port) taken ≡ false
    → TcpStep proxy taken rest
unfolding filter_tcp_from validate_tcp
new_port proxy taken rest port on filled at free =
    elim (Result-cases (upstream_address proxy.upstream)) [
      | inl (target, reaches) ↦
          let (primary, listens) = listen_port-address proxy at in
          accept port
            (record {
              on = on;
              at_port = at;
              primary = primary;
              listens = listens;
              target = target;
              reaches = reaches;
            })
            free (ground arith)
      | inr (e, failed) ↦ waste port at (ground arith)
    ]

filter_step :
    (proxy : TcpProxyConfig) (taken : List ℕ) (rest : List TcpProxyConfig)
    → TcpStep proxy taken rest
unfolding filter_tcp_from validate_tcp
filter_step proxy taken rest = elim (Bool-cases proxy.enabled) [
  | inr off ↦ pass (ground arith)
  | inl on ↦ elim (Bool-cases (is_empty (trim proxy.listen))) [
    | inl blank ↦ pass (ground arith)
    | inr filled ↦ elim (Result-cases (listen_port proxy)) [
      | inr (e, failed) ↦ pass (ground arith)
      | inl (port, at) ↦ elim (Bool-cases (any (λ p. p == port) taken)) [
        | inl used ↦ pass (ground arith)
        | inr free ↦ new_port proxy taken rest port on filled at free
      ]
    ]
  ]
]

-- A list that is startable beside more ports is so beside fewer.
Startable-fewer :
    (more fewer : List ℕ) (proxies : List TcpProxyConfig)
    → ((n : ℕ) → any (λ p. p == n) more ≡ false → any (λ p. p == n) fewer ≡ false)
    → Startable more proxies
    → Startable fewer proxies
Startable-fewer more fewer [] sub h = tt
Startable-fewer more fewer (proxy ∷ rest) sub (port, startable, free, others) = (
  port,
  startable,
  sub port free,
  Startable-fewer (port ∷ more) (port ∷ fewer) rest
      (λ n h. let below = sub n (ground arith) in ground (arith, below)) others,
)

filter_tcp_from-Startable :
    (proxies : List TcpProxyConfig) (taken : List ℕ)
    → Startable taken (filter_tcp_from proxies taken)
unfolding filter_tcp_from
filter_tcp_from-Startable [] taken = tt
filter_tcp_from-Startable (proxy ∷ rest) taken = elim (filter_step proxy taken rest) [
  | accept port startable free e ↦
      rw e (port, startable, free, filter_tcp_from-Startable rest (port ∷ taken))
  | pass e ↦ rw e (filter_tcp_from-Startable rest taken)
  | waste port at e ↦ rw e (
      Startable-fewer (port ∷ taken) taken _ (λ n h. ground arith)
        (filter_tcp_from-Startable rest (port ∷ taken)))
]

-- Every TCP proxy that passes the filter is enabled, listens at a port that no other accepted one
-- has, and has a listen address and an upstream address.
pub filter_valid_tcp-Startable :
    (proxies : List TcpProxyConfig) → Startable [] (filter_valid_tcp proxies)
unfolding filter_valid_tcp
filter_valid_tcp-Startable proxies = filter_tcp_from-Startable proxies []

-- A proxy whose listen address is good and whose upstream is not is dropped and still takes its
-- port: the next proxy on that port is dropped with it, whatever its own upstream.
pub filter_valid_tcp-wasted :
    (first second : TcpProxyConfig) (rest : List TcpProxyConfig) (port : ℕ)
    → first.enabled ≡ true
    → is_empty (trim first.listen) ≡ false
    → listen_port first ≡ ok port
    → (failure : TcpError) → upstream_address first.upstream ≡ err failure
    → listen_port second ≡ ok port
    → filter_valid_tcp (first ∷ second ∷ rest) ≡ filter_tcp_from rest (port ∷ [])
unfolding filter_valid_tcp filter_tcp_from validate_tcp
filter_valid_tcp-wasted first second rest port on filled at failure failed same =
    elim (Bool-cases second.enabled) [
      | inl e ↦ elim (Bool-cases (is_empty (trim second.listen))) [
        | inl blank ↦ ground arith
        | inr written ↦ ground arith
      ]
      | inr e ↦ ground arith
    ]
