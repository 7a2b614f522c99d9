-- ===== src/Resiliency.antt =====
-- Resiliency scoring: `krkn/resiliency` and `krkn/prometheus/collector.py`.
mod Tests
pub mod Score
pub mod Collector
pub mod Orchestrator
pub mod History
