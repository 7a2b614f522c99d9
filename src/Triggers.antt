-- ===== src/Triggers.antt =====
-- krkn/scenario_plugins/triggers: the conditions that a chaos run waits for.
mod Tests
pub mod Values
pub mod Condition
pub mod Kinds
pub mod Manager
