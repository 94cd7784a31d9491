-- ===== src/Domains.antt =====
-- src/domain_routing.rs: which site answers a request, by its host, listener and kind.
pub mod Hosts
pub mod Matching
pub mod Sites
pub mod Selection
pub mod Claims
