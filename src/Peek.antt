-- ===== src/Peek.antt =====
-- src/peek.rs: the classification of a connection from the bytes that it has sent.
pub mod Tls
pub mod Http
pub mod Bounds
pub mod Body
pub mod Longer
pub mod Classify
pub mod Windows
mod Tests
