-- ===== src/Http3.antt =====
-- src/http3.rs: the requests and responses of an upstream that is spoken to over HTTP/3.
pub mod Headers
pub mod Response
pub mod Connection
pub mod Exchange
