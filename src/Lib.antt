-- ===== src/Lib.antt =====
-- Konnector is a reverse proxy built on pingora: it reads one YAML file per site, checks the sites,
-- turns them into a routing table, and takes each request through a chain of filters to an upstream.
-- Beside it run TCP proxies, the renewal of certificates, and a tool that installs releases. This
-- library models the decisions of all these parts and proves what makes them correct.
--
-- The parts, and the files that model them:
--   Prelude: shared helpers; a `Text` is a list of code points with the methods of Rust's `str`, a
--     body a list of bytes, and Result is Rust's. Sorting, IpAddr and FilePath model what the source
--     uses of BTreeSet, of the parser of IP addresses and of Path.
--   Configs: src/configs.rs. The types of a site (Types), the values of `listen` and `traffic`
--     (Listen, Traffic), the variables of the environment (Env), the TLS settings (Tls), the root file
--     and ServerConfig (Root), TCP proxies and their addresses (Tcp), upstreams and their addresses
--     (Upstream), and the loading of the directory (Loading); Loaded, Origin and Upstream.Accepted hold
--     proofs.
--   EnvFile, LogFiles: src/env_file.rs, with `ensure_config_dir_env` of src/platform_ops.rs; and
--     src/paths.rs on Unix, the paths of src/file_log.rs, and `resolve_log_target`.
--   Validation: src/validation.rs, which sites, upstreams, TCP proxies and settings of the server
--     are accepted (Site, Upstream, Tcp, Server). That a file exists is a parameter.
--   Domains: src/domain_routing.rs, host names and wildcards (Hosts, Matching), the site of a
--     request (Sites, Selection), and the claims on host names (Claims).
--   Paths: URL prefixes, in src/access_control.rs, src/internal_routes.rs and
--     strip_internal_prefix of src/path_rewrite.rs.
--   Session, Http: what the handlers read of a pingora session, with src/websocket.rs; and what they
--     exchange with pingora. The header map and the parser of URIs are an interface, HttpLib.
--   Forwarding: src/forwarding.rs, the public scheme, host and port, and the headers for an upstream.
--   Redirects: src/redirects.rs, HTTPS redirects, redirect rules and rewrites.
--   Upstreams: src/upstreams.rs, the choice of an upstream (Selection), the connection to it (Peer)
--     and the request sent to it (Transform). The load balancer, the loading of a CA and the cell
--     of once_cell that holds it are parameters.
--   PathRewrite: src/path_rewrite.rs, the rewriting of locations (Location) and bodies (Assets,
--     Body, Stream). The url crate is an interface, UrlLib.
--   ErrorPages: src/error_pages.rs.
--   Acme: src/acme.rs and src/acme_challenge.rs, the answers to HTTP-01 challenges (Challenges), the
--     pause after a failed issuance and the decision at startup (Backoff), the first issuance
--     (Background), one order (Issuance) and the account (Account). The ACME client is a parameter.
--   Certificates: src/ssl.rs and src/ssl_watcher.rs. The names a certificate is wanted for (Names),
--     what one covers (Coverage, Identities), when its files are accepted (Files), how each provider fetches one
--     (Provider), the certificate at startup (Renewal), and the restarts of the watcher (Watcher).
--     What OpenSSL, Cloudflare, a command, ACME and the file system do is a record of functions on a
--     world, World.
--   RequestLogging, CachePolicy: src/request_logging.rs and src/cache_policy.rs.
--   Proxy: src/proxy/, the sites as they run (Runtime), the routing table (Routing) and the hooks of
--     the proxy (Handler). The exchange over HTTP/3 is a parameter of the hooks.
--   Http3: src/http3.rs, the headers of a request (Headers) and a response (Response), the
--     connection (Connection) and the exchange (Exchange). QUIC and the sessions are a record of
--     their answers, Quic.
--   TcpProxy: src/tcp_proxy.rs, the listeners and their reload (Manager), the loop of one listener
--     (Listener), and one connection (Relay).
--   Application: src/application.rs, src/config_watcher.rs and `reload_routing`, how the parts start
--     and are reloaded; what the watcher's routing table is built from (Accepted).
--   Cli: src/cli.rs, the commands and their arguments (Commands), the package of a release (Release)
--     and its installation, from a package (Packages) or an archive (Archive).
--   Platform: src/platform_ops.rs, the commands on the service (Service), the activation of a release
--     (Activation), the lines of a log (Tail) and the clock (Clock), whose year is the bits of an
--     i32.
--   Tests: concrete inputs, and the theorems at them.
--
-- How they interact: Configs gives SiteConfigs to Validation, whose filter keeps a map of claims
-- from Domains; Proxy.Routing maps the accepted sites to SiteRuntimes, whose index the context of a
-- request (RequestContext) holds. Proxy.Handler.Filter composes Acme, Domains, Redirects, Paths and
-- Upstreams in the order of `request_filter`. Application composes Configs, Validation, Proxy.Routing
-- and TcpProxy as a reload does, and Certificates as the startup does. A function that changes a
-- session, a context, a manager or the world returns the changed one; the routing table is read once
-- per hook, as its snapshot is.
--
-- A call of an index out of bounds, which stops a handler in Rust, is an error of its own (panic).
-- All recursion is structural: no function runs on fuel but the printing of a number, whose fuel is
-- the number itself plus one. The attempts of a wait are counted down as in the source. Sizes of
-- bodies are natural numbers: a usize does not overflow below the limit of 10 MiB and one chunk. The
-- theorem on the clock is for seconds below 2^55, where the year fits its i32.
--
-- Not modelled: sockets, TLS, QUIC, threads and timers, which are pingora's, quinn's or the
-- system's; the ACME client, the request to Cloudflare and OpenSSL; the parsers of YAML, JSON and
-- URLs; the writing and rotation of log files; downloads, archives and the copying of a package's
-- files; what systemd does; the Windows service; what the command line prints; the paths on
-- Windows.
pub mod Prelude
pub mod Configs
pub mod Session
pub mod Http
pub mod ErrorPages
pub mod Forwarding
pub mod Upstreams
pub mod Redirects
pub mod PathRewrite
pub mod Acme
pub mod Proxy
pub mod Domains
pub mod Paths
pub mod Validation
pub mod Tests
pub mod RequestLogging
pub mod CachePolicy
pub mod TcpProxy
pub mod Certificates
pub mod Cli
pub mod Platform
pub mod EnvFile
pub mod LogFiles
pub mod Application
pub mod Http3
