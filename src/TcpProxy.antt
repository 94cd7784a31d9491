-- ===== src/TcpProxy.antt =====
-- src/tcp_proxy.rs: the manager of the TCP listeners, their accept loop and the relay.
pub mod Manager
pub mod Listener
pub mod Relay
