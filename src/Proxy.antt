-- ===== src/Proxy.antt =====
-- src/proxy/: the sites as they run, the context of a request, the routing table and the handler.
pub mod Runtime
pub mod Routing
pub mod Handler
