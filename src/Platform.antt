-- ===== src/Platform.antt =====
-- src/platform_ops.rs: the clock, the activation of a release, the commands on the service, and the
-- lines of a log.
pub mod Clock
pub mod Activation
pub mod Service
pub mod Tail
