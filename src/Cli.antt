-- ===== src/Cli.antt =====
-- daemon/crates/athar-cli: the dispatch, the status query, the health check and the other commands.
pub mod Client
pub mod Status
pub mod Commands
pub mod Listing
pub mod Showing
