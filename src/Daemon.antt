-- ===== src/Daemon.antt =====
-- daemon/crates/athar-daemon: the pipeline of a frame, the background tasks, the configuration and the clock.
pub mod Eviction
pub mod Driver
pub mod Drops
pub mod Gaps
pub mod Wire
pub mod State
pub mod Ingest
pub mod Coverage
pub mod Spool
pub mod Calendar
pub mod Reload
pub mod HostMetrics
pub mod Config
pub mod Server
