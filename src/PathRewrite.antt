-- ===== src/PathRewrite.antt =====
-- src/path_rewrite.rs: the responses of an upstream that is mounted below a base path.
pub mod Location
pub mod Assets
pub mod Body
pub mod Stream
