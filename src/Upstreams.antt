-- ===== src/Upstreams.antt =====
-- src/upstreams.rs: the upstream of a request, the peer that is connected to, and the request that
-- is sent to it. The load balancer's answer, the parser of a URI, the header map and the loading of
-- a CA are arguments.
pub mod Selection
pub mod Peer
pub mod Transform
