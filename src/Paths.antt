-- ===== src/Paths.antt =====
-- Paths of requests: the allowlist of src/access_control.rs, the internal routes of
-- src/internal_routes.rs and the prefix that src/path_rewrite.rs strips for them.
pub mod Prefix
pub mod Access
pub mod Routes
