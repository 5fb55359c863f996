-- ===== src/Router.antt =====
-- src/router.rs: the SNI/Host router. The children `Names`, `Table`, `Build`, `Matching` and
-- `Confine` hold the definitions, the others what is proved of them.
pub mod Names
pub mod Table
pub mod Entries
pub mod Build
pub mod Matching
pub mod Confine
pub mod Walk
pub mod Hosts
pub mod Scopes
pub mod Tests
