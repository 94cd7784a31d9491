-- ===== src/Configs.antt =====
-- src/configs.rs: the configuration of sites, of TCP proxies and of the server.
pub mod Listen
pub mod Traffic
pub mod Types
pub mod Tcp
pub mod Env
pub mod Upstream
pub mod Tls
pub mod Root
pub mod Loading
pub mod Loaded
pub mod Origin
