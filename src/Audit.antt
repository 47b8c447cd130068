-- ===== src/Audit.antt =====
-- daemon/crates/athar-audit: hex codec, canonical encoding, the hash chain and its verification, the
-- segment store and the writer.
pub mod Hex
pub mod Record
pub mod Encoding
pub mod Chain
pub mod Verification
pub mod Closing
pub mod Store
pub mod Writer
pub mod Continuity
pub mod Everywhere
pub mod History
pub mod Restarts
pub mod Lifetimes
pub mod Tamper
