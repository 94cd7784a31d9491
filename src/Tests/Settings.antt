-- ===== src/Tests/Settings.antt =====
-- The theorems on the settings, the TCP proxies and the reloading at concrete inputs.
use konnector.Prelude.{
  ◌≡◌, refl, true, false, Option, none, some, List, [], ◌∷◌, map, Text, codes, if◌then◌else◌, err,
  str_eq, trim, contains, contains_char, trim_end_matches, ◌⊎◌, rsplit_once, parse_uint, print_uint,
  is_ascii_digit,
}
use konnector.Configs.Types.{SiteConfig, UpstreamConfig, HttpVersion, LogLevel}
use konnector.Configs.Env.{Env}
use konnector.Configs.Upstream.Accepted.{Origin, names_one, normalize_upstream-Origin}
use konnector.Configs.Upstream.{RawUpstreamConfig, ParsedUrl, normalize_upstream}
use konnector.Configs.Root.{Files, Machine, RootConfig}
use konnector.Configs.Tcp.{TcpProxyConfig, TcpError, listen_address, listen_port, upstream_address}
use konnector.Validation.Tcp.{Startable, filter_valid_tcp, filter_tcp_from, filter_valid_tcp-wasted}
use konnector.TcpProxy.Manager
use konnector.TcpProxy.Manager.{Manager}
use konnector.Application.{Sources, WatchEvent, EventKind, Running, watch}
use konnector.Application.Accepted.{IsAccepted, watch-IsAccepted}
use konnector.Tests.Data.{backend, site_config}

abbrev service_text : Text
service_text = codes "https://service.example.com:8443/base/"

abbrev service : ParsedUrl
service = record {
  scheme = codes "https";
  username = [];
  password = none;
  query = none;
  fragment = none;
  host_str = some (codes "service.example.com");
  port = some 8443;
  port_or_known_default = some 8443;
  path = codes "/base/";
}

abbrev parse_service : Text → Option ParsedUrl
parse_service text = if str_eq text service_text then some service else none

abbrev by_instance : RawUpstreamConfig
by_instance = record {
  instance_name = some service_text;
  address = none;
  url = none;
  tls = none;
  sni = none;
  host = none;
  ca_path = none;
  http_version = none;
}

abbrev service_upstream : UpstreamConfig
service_upstream = record {
  address = codes "service.example.com:8443";
  tls = true;
  sni = codes "service.example.com";
  host = some (codes "service.example.com:8443");
  ca_path = none;
  base_path = codes "/base";
  http_version = HttpVersion.auto;
}

normalize_upstream-Origin_example :
    (names_one by_instance ≡ true) × Origin parse_service by_instance service_upstream
unfolding normalize_upstream str_eq contains contains_char trim_end_matches print_uint
normalize_upstream-Origin_example =
    normalize_upstream-Origin parse_service by_instance service_upstream refl

-- The root file sets an upstream, and nothing is in the environment but the switch of HTTPS.
abbrev env : Env
env name = if str_eq name (codes "TLS_ENABLED") then some (codes "off") else none

abbrev root_config : RootConfig
root_config = record {
  enabled = true;
  upstream = some backend;
  proxy = none;
  logging = LogLevel.info;
  http_version = HttpVersion.auto;
  tls = record { enabled = true; staging = false };
}

abbrev files : Files
files = record {
  is_file = λ path. true;
  is_dir = λ path. false;
  read = λ path. some (codes "enabled: true");
  parse_root = λ text. some root_config;
}

abbrev machine : Machine
machine = record {
  env = env;
  files = files;
  parallelism = some 8;
  production_config_dir = codes "/opt/konnector/current/configs";
  ssl_dir = codes "/etc/ssl/konnector";
}

abbrev names : List Text
names = codes "shop.yaml" ∷ codes "root.yaml" ∷ codes "db.tcp.yaml" ∷ codes "notes.txt" ∷ []

abbrev parse_site : Text → Option SiteConfig
parse_site name = some (site_config (codes "shop.com"))

abbrev tcp_to : Option Text → TcpProxyConfig
tcp_to instance_name = record {
  enabled = true;
  name = codes "postgres";
  listen = codes "5432";
  upstream = record { instance_name = instance_name; address_name = none };
  source_file = codes "postgres.tcp";
}

abbrev nowhere : TcpProxyConfig
nowhere = tcp_to none

abbrev to_database : TcpProxyConfig
to_database = tcp_to (some (codes "localhost"))

filter_valid_tcp-wasted_example :
    filter_valid_tcp (nowhere ∷ to_database ∷ []) ≡ filter_tcp_from [] (5432 ∷ [])
unfolding listen_port listen_address upstream_address trim is_ascii_digit rsplit_once parse_uint
filter_valid_tcp-wasted_example =
    filter_valid_tcp-wasted nowhere to_database [] 5432 refl refl refl TcpError.no_upstream refl
      refl

reload-Running_example :
    Manager.Running
      (Manager.tcp_level LogLevel.off)
      (filter_valid_tcp (to_database ∷ nowhere ∷ []))
      (Manager.reload (to_database ∷ nowhere ∷ []) LogLevel.off Manager.new).0.listeners
    × ((Manager.reload (to_database ∷ nowhere ∷ []) LogLevel.off Manager.new).1
        ≡ map Manager.stop Manager.new.listeners)
    × Startable [] (filter_valid_tcp (to_database ∷ nowhere ∷ []))
reload-Running_example =
    Manager.reload-Running (to_database ∷ nowhere ∷ []) LogLevel.off Manager.new

abbrev sources : Sources
sources = record {
  names = some names;
  parse_site = parse_site;
  parse_tcp = λ name. some to_database;
  machine = machine;
  view = record {
    is_file = λ path. true;
    tls_files = λ https. record {
      certificate = err (codes "no certificate");
      key_matches = err (codes "no key");
    };
  };
}

abbrev started : Running
started = record {
  routing = record { sites = []; root_site = none; default_logging = LogLevel.info };
  tcp = Manager.new;
}

abbrev events : List (Sources × WatchEvent)
events =
    (sources, WatchEvent.event EventKind.access)
    ∷ (sources, WatchEvent.event EventKind.change)
    ∷ (sources, WatchEvent.watch_error)
    ∷ []

watch-IsAccepted_example :
    ((watch events started).routing ≡ started.routing)
    ⊎ IsAccepted events (watch events started).routing
watch-IsAccepted_example = watch-IsAccepted events started
