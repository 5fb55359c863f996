-- ===== src/Proxy.antt =====
-- src/proxy.rs: what becomes of a classified connection.
pub mod Dispatch
pub mod Alpn
pub mod Ports
mod Tests
