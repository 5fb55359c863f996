-- ===== src/Resolver.antt =====
-- src/resolver.rs: the certificate resolver of one listener. `Clip` holds the decision which names
-- of an upstream certificate are mirrored.
pub mod Clip
pub mod Clipping
pub mod Accounting
pub mod Issue
pub mod Serving
pub mod Mirroring
pub mod History
pub mod Confinement
mod Tests
