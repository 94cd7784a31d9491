-- ===== src/Validation.antt =====
-- src/validation.rs: which sites, TCP proxies and server settings are accepted.
pub mod Upstream
pub mod Site
pub mod Exclusive
pub mod Tcp
pub mod Server
