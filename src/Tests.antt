-- ===== src/Tests.antt =====
-- The theorems of the library at concrete inputs.
mod Events
mod Lifecycles
mod Governors
mod Chains
mod Logs
mod Detections
mod Decisions
mod Evictions
mod Gaps
mod Pipelines
mod Clients
