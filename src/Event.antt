-- ===== src/Event.antt =====
-- daemon/crates/athar-event/src/lib.rs: the canonical event and its structural validation.
pub mod Enums
pub mod Refs
pub mod Types
pub mod Validate
pub mod Validation
