-- ===== src/TcpProxy/Relay.antt =====
-- src/tcp_proxy.rs: `connect_upstream` and `relay_connection`, with the record of a connection that
-- `log_tcp_connection` of src/request_logging.rs writes. The resolver, the sockets and the copying
-- threads are parameters; a line is a record of its parts, without the client and the duration.
use konnector.Prelude.{
  ℕ, ◌≡◌, refl, true, List, [], ◌∷◌, ◌++◌, arith, if◌then◌else◌, Option, none, some, Text, codes,
  is_empty, Result, ok, err, ◌>>=◌, unwrap_or, All,
}
use konnector.Configs.Types.{LogLevel, is_enabled}

-- The loop, with the last error so far; `unresolved` is the error where there is no address.
unfoldable pub try_addresses {ℓ κ μ} :
    {E : Type μ} {A : Type ℓ} {S : Type κ} → (A → Result E S) → E → List A → Option E → Result E S
try_addresses connect unresolved [] last_error = err (unwrap_or last_error unresolved)
try_addresses connect unresolved (a ∷ rest) last_error = elim (connect a) [
  | ok stream ↦ ok stream
  | err e ↦ try_addresses connect unresolved rest (some e)
]

unfoldable pub connect_upstream {ℓ κ μ} :
    {E : Type μ} {A : Type ℓ} {S : Type κ}
    → (Text → Result E (List A))
    → (A → Result E S)
    → (Text → E)
    → Text
    → Result E S
unfolding try_addresses
connect_upstream resolve connect unresolved upstream =
    resolve upstream >>= λ addresses. try_addresses connect (unresolved upstream) addresses none

-- How a copying thread ends: with the bytes it copied, with an error, or with a panic.
pub data Copied : Type 0 where
  bytes : ℕ → Copied
  failed : Text → Copied
  panicked : Copied

pub record TcpLine : Type 0 where
  pub folder : Text
  pub name : Text
  pub upstream : Text
  pub bytes_up : ℕ
  pub bytes_down : ℕ
  pub error : Option Text

-- What the sockets of one connection do, errors as their text.
pub record Connection : Type 0 where
  pub connected : Result Text (Unit {0})
  pub client_cloned : Result Text (Unit {0})
  pub server_cloned : Result Text (Unit {0})
  pub client_to_server : Copied
  pub server_to_client : Copied

unfoldable pub joined : Text → Copied → Result Text ℕ
joined panic_text (bytes n) = ok n
joined panic_text (failed e) = err e
joined panic_text panicked = err panic_text

-- The bytes up and down and the error that the line of a connection reports.
abbrev pub Report : Type 0
Report = ℕ × ℕ × Option Text

abbrev report_down : ℕ → Result Text ℕ → Report
report_down up (ok down) = (up, down, none)
report_down up (err e) = (up, 0, some e)

unfoldable pub report : Connection → Report
unfolding joined
report c = elim c.connected [
  | err e ↦ (0, 0, some e)
  | ok _ ↦ elim c.client_cloned [
    | err e ↦ (0, 0, some e)
    | ok _ ↦ elim c.server_cloned [
      | err e ↦ (0, 0, some e)
      | ok _ ↦ elim (joined (codes "client -> upstream relay failed") c.client_to_server) [
        | err e ↦ (0, 0, some e)
        | ok up ↦
            report_down up (joined (codes "upstream -> client relay failed") c.server_to_client)
      ]
    ]
  ]
]

unfoldable pub log_tcp_connection : Text → Text → Text → Report → TcpLine
log_tcp_connection name source_file upstream (up, down, error) = record {
  folder = if is_empty source_file then name else source_file;
  name = name;
  upstream = upstream;
  bytes_up = up;
  bytes_down = down;
  error = error;
}

unfoldable pub relay_connection : Text → Text → Text → LogLevel → Connection → Option TcpLine
unfolding report log_tcp_connection is_enabled
relay_connection name source_file upstream logging c =
    if is_enabled logging
    then some (log_tcp_connection name source_file upstream (report c))
    else none

abbrev pub Fails {ℓ κ μ} :
    {E : Type μ} {A : Type ℓ} {S : Type κ} → (A → Result E S) → A → Type (κ ⊔ μ)
Fails {E = E} connect a = (e : E) × (connect a ≡ err e)

module _ {ℓ κ μ} {E : Type μ} {A : Type ℓ} {S : Type κ} (connect : A → Result E S)
    (unresolved : E) where
  try_addresses-first :
      (before : List A) (a : A) (after : List A) (stream : S) (last_error : Option E)
      → All (Fails connect) before
      → connect a ≡ ok stream
      → try_addresses connect unresolved (before ++ a ∷ after) last_error ≡ ok stream
  unfolding try_addresses
  try_addresses-first [] a after stream last_error fails h = rw h refl
  try_addresses-first (b ∷ before) a after stream last_error ((e, refused), fails) h =
      rw refused (try_addresses-first before a after stream (some e) fails h)

  try_addresses-last :
      (before : List A) (a : A) (e : E) (last_error : Option E)
      → All (Fails connect) before
      → connect a ≡ err e
      → try_addresses connect unresolved (before ++ a ∷ []) last_error ≡ err e
  unfolding try_addresses
  try_addresses-last [] a e last_error fails h = rw h refl
  try_addresses-last (b ∷ before) a e last_error ((first, refused), fails) h =
      rw refused (try_addresses-last before a e (some first) fails h)

-- Where an upstream resolves, the connection is that to the first address that can be reached; if
-- none can be, the error is that of the last address.
pub connect_upstream_lem {ℓ κ μ} :
    {E : Type μ} {A : Type ℓ} {S : Type κ} (resolve : Text → Result E (List A))
    (connect : A → Result E S) (unresolved : Text → E) (upstream : Text) (before : List A) (a : A)
    (after : List A)
    → resolve upstream ≡ ok (before ++ a ∷ after)
    → All (Fails connect) before
    → ((stream : S)
        → connect a ≡ ok stream
        → connect_upstream resolve connect unresolved upstream ≡ ok stream)
      × ((e : E)
          → after ≡ []
          → connect a ≡ err e
          → connect_upstream resolve connect unresolved upstream ≡ err e)
unfolding connect_upstream
connect_upstream_lem resolve connect unresolved upstream before a after resolved fails = (
  λ stream h.
      rw resolved
        (try_addresses-first connect (unresolved upstream) before a after stream none fails h),
  λ e single h.
      rw (resolved, single)
        (try_addresses-last connect (unresolved upstream) before a e none fails h),
)

-- A line without an error is written only if every step succeeded, with the bytes that both
-- directions copied; any other line has an error and no bytes from the upstream. A line is written
-- exactly when the level of the listener is not off.
pub relay_connection_lem :
    (name source_file upstream : Text) (logging : LogLevel) (c : Connection) (line : TcpLine)
    → relay_connection name source_file upstream logging c ≡ some line
    → (is_enabled logging ≡ true)
      × (line.error ≡ none
          → (c.connected ≡ ok tt)
            × (c.client_cloned ≡ ok tt)
            × (c.server_cloned ≡ ok tt)
            × (c.client_to_server ≡ bytes line.bytes_up)
            × (c.server_to_client ≡ bytes line.bytes_down))
      × ((e : Text) → line.error ≡ some e → line.bytes_down ≡ 0)
unfolding relay_connection report joined log_tcp_connection
relay_connection_lem name source_file upstream logging c line h =
    (ground arith, λ e. ground arith, λ t e. ground arith)
