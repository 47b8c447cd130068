-- ===== src/Storage.antt =====
-- daemon/crates/athar-storage: the quota, the framing of records and the segmented log.
pub mod Quota
pub mod Framing
pub mod Recovery
pub mod Log
pub mod Accounting
pub mod Invariant
pub mod Appending
pub mod Holding
pub mod History
pub mod Reopen
pub mod Termination
pub mod Counting
