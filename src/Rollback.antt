-- ===== src/Rollback.antt =====
-- Rollback of what a scenario changed: `krkn/rollback`.
mod Tests
pub mod Names
pub mod Config
pub mod Files
pub mod Handler
pub mod Signal
