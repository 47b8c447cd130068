-- ===== src/Lifecycle.antt =====
-- daemon/crates/athar-lifecycle: lifecycle types, the store interface with its implementations in
-- memory and over SQLite, the engine and the staleness scanner.
pub mod Types
pub mod Store
pub mod InMemory
pub mod Transition
pub mod Correlate
pub mod Valid
pub mod Engine
pub mod Scanner
pub mod Sqlite
pub mod History
