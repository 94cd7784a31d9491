-- ===== src/TcpProxy/Manager.antt =====
-- src/tcp_proxy.rs: `TcpProxyManager`, and `reload`. A thread is the arguments of its
-- `run_listener`; the handles that are stopped are returned, in place of the threads that end.
use konnector.Prelude.{
  ℕ, ◌≡◌, refl, sym, ap, Bool, true, false, List, [], ◌∷◌, ◌++◌, map, arith, if◌then◌else◌, ok, err,
  Text, is_empty, ◌∙◌, append_assoc, append-nil,
}
use konnector.Configs.Types.{LogLevel, info, is_enabled}
use konnector.Configs.Tcp.{
  TcpProxyConfig, upstream_address, listen_address, listen_addresses, listen_ipv6,
}
use konnector.Validation.Tcp.{IsStartable, Startable, filter_valid_tcp, filter_valid_tcp-Startable}

-- The arguments of `run_listener`.
pub record Thread : Type 0 where
  pub name : Text
  pub source_file : Text
  pub listen : Text
  pub upstream : Text
  pub logging : LogLevel

pub record ListenerHandle : Type 0 where
  pub shutdown : Bool
  pub joins : List Thread

pub record Manager : Type 0 where
  pub listeners : List ListenerHandle
  pub logging : LogLevel

unfoldable pub new : Manager
new = record { listeners = []; logging = LogLevel.off }

-- `config.source_file`, or the name where it is empty.
abbrev pub stem : TcpProxyConfig → Text
stem config = if is_empty config.source_file then config.name else config.source_file

abbrev pub thread : TcpProxyConfig → Text → LogLevel → Text → Thread
thread config upstream logging listen = record {
  name = config.name;
  source_file = stem config;
  listen = listen;
  upstream = upstream;
  logging = logging;
}

unfoldable pub start_one : TcpProxyConfig → LogLevel → Manager → Manager
start_one config logging manager = elim (upstream_address config.upstream) [
  | err e ↦ manager
  | ok upstream ↦ elim (listen_addresses config) [
    | err e ↦ manager
    | ok addresses ↦
        let handle : ListenerHandle = record {
          shutdown = false;
          joins = map (thread config upstream logging) addresses;
        } in
        record manager { listeners = manager.listeners ++ handle ∷ [] }
  ]
]

abbrev pub stop : ListenerHandle → ListenerHandle
stop handle = record handle { shutdown = true }

-- The manager without listeners, and the handles whose threads were told to end and joined.
unfoldable pub stop_all : Manager → Manager × List ListenerHandle
stop_all manager = (record manager { listeners = [] }, map stop manager.listeners)

-- An enabled TCP proxy is logged also if the root logging is off.
unfoldable pub tcp_level : LogLevel → LogLevel
unfolding is_enabled
tcp_level logging = if is_enabled logging then logging else info

unfoldable pub start_all : List TcpProxyConfig → LogLevel → Manager → Manager
unfolding start_one tcp_level
start_all [] logging manager = manager
start_all (config ∷ rest) logging manager =
    start_all rest logging (start_one config (tcp_level logging) manager)

unfoldable pub apply : List TcpProxyConfig → LogLevel → Manager → Manager × List ListenerHandle
unfolding start_all stop_all
apply configs logging manager =
    let (emptied, stopped) = stop_all (record manager { logging = logging }) in
    (start_all configs logging emptied, stopped)

-- `reload`, on the proxies that were read and the logging of the root settings.
unfoldable pub reload : List TcpProxyConfig → LogLevel → Manager → Manager × List ListenerHandle
unfolding apply filter_valid_tcp
reload loaded logging manager = apply (filter_valid_tcp loaded) logging manager

-- What the threads of a handle do: they run for one proxy, at its addresses, until they are stopped.
pub record IsRunning (level : LogLevel) (config : TcpProxyConfig) (handle : ListenerHandle)
    : Type 0 where
  pub alive : handle.shutdown ≡ false
  pub upstream : Text
  pub to_upstream : upstream_address config.upstream ≡ ok upstream
  pub primary : Text
  pub at_primary : listen_address config ≡ ok primary
  pub threads : handle.joins ≡ map (thread config upstream level) (primary ∷ listen_ipv6 primary)

-- The handles and the proxies in one order.
abbrev pub Running : LogLevel → List TcpProxyConfig → List ListenerHandle → Type 0
Running level [] [] = Unit
Running level [] (handle ∷ handles) = ⊥
Running level (config ∷ configs) [] = ⊥
Running level (config ∷ configs) (handle ∷ handles) =
    IsRunning level config handle × Running level configs handles

start_one-IsRunning :
    (config : TcpProxyConfig) (level : LogLevel) (manager : Manager) {port : ℕ}
    → IsStartable config port
    → (handle : ListenerHandle) × IsRunning level config handle
      × (start_one config level manager
          ≡ record manager { listeners = manager.listeners ++ handle ∷ [] })
unfolding start_one listen_addresses
start_one-IsRunning config level manager startable = (
  record {
    shutdown = false;
    joins =
        map (thread config startable.target level)
          (startable.primary ∷ listen_ipv6 startable.primary);
  },
  record {
    alive = refl;
    upstream = startable.target;
    to_upstream = startable.reaches;
    primary = startable.primary;
    at_primary = startable.listens;
    threads = refl;
  },
  ground (arith, startable.reaches, startable.listens),
)

start_all-Running :
    (configs : List TcpProxyConfig) (logging : LogLevel) (manager : Manager) (taken : List ℕ)
    → Startable taken configs
    → (handles : List ListenerHandle) × Running (tcp_level logging) configs handles
      × (start_all configs logging manager
          ≡ record manager { listeners = manager.listeners ++ handles })
unfolding start_all
start_all-Running [] logging manager taken h =
    let with_listeners : List ListenerHandle → Manager = λ l. record manager { listeners = l } in
    ([], tt, ap with_listeners (sym (append-nil manager.listeners)))
start_all-Running (config ∷ rest) logging manager taken (port, startable, free, others) =
    let level = tcp_level logging in
    let with_listeners : List ListenerHandle → Manager = λ l. record manager { listeners = l } in
    let (handle, running, started) = start_one-IsRunning config level manager startable in
    let (handles, all_running, all_started) =
      start_all-Running rest logging (start_one config level manager) (port ∷ taken) others in
    (
      handle ∷ handles,
      (running, all_running),
      all_started
          ∙ ap {A = Manager} (λ m. record m { listeners = m.listeners ++ handles }) started
          ∙ ap with_listeners (append_assoc manager.listeners (handle ∷ []) handles),
    )

-- A reload, whatever was read and whatever ran before, stops every listener there was, and leaves
-- one running listener for each accepted proxy, in their order, at its addresses and to its
-- upstream, and no other; logged at the root level, or at info where that is off. The accepted
-- proxies are enabled, and no two listen at one port.
pub reload-Running :
    (loaded : List TcpProxyConfig) (logging : LogLevel) (manager : Manager)
    → Running
        (tcp_level logging)
        (filter_valid_tcp loaded)
        (reload loaded logging manager).0.listeners
      × ((reload loaded logging manager).1 ≡ map stop manager.listeners)
      × Startable [] (filter_valid_tcp loaded)
unfolding reload apply stop_all
reload-Running loaded logging manager =
    let emptied : Manager = record manager { listeners = []; logging = logging } in
    let accepted = filter_valid_tcp-Startable loaded in
    let (handles, running, started) =
      start_all-Running (filter_valid_tcp loaded) logging emptied [] accepted in
    (rw (ap (λ m. m.listeners) started) running, refl, accepted)
