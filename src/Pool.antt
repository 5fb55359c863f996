-- ===== src/Pool.antt =====
-- src/pool.rs: the pool of upstream endpoints.
pub mod Health
pub mod Schedule
pub mod Views
mod Tests
