-- ===== src/Detection.antt =====
-- daemon/crates/athar-detection: policies, trackers, signals and decisions.
pub mod Policy
pub mod Rules
pub mod Velocity
pub mod Subjects
pub mod Capacity
pub mod Targets
pub mod SignalConfig
pub mod Signals
pub mod Decision
pub mod Sqlite
pub mod Loading
