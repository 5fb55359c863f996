-- ===== src/Config.antt =====
-- src/config.rs: the parts of the configuration that are read from text.
pub mod Tables
pub mod Verify
pub mod Ladder
pub mod Coherence
pub mod Routes
pub mod Servable
pub mod Validated
pub mod Resolvers
pub mod BuildOrder
pub mod Inheritance
pub mod Regexes
pub mod Samples
pub mod Upstream
pub mod Spelling
pub mod Forms
pub mod Scope
pub mod Labels
pub mod Domains
mod Tests
