-- ===== src/Certificates.antt =====
-- src/ssl.rs and src/ssl_watcher.rs: the names that certificates are wanted for, whether a
-- certificate covers them, and when it is fetched again.
pub mod Names
pub mod Coverage
pub mod Identities
pub mod Files
pub mod Provider
pub mod Renewal
pub mod Watcher
