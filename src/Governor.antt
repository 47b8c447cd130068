-- ===== src/Governor.antt =====
-- daemon/crates/athar-governor/src/lib.rs: the degradation ladder and the dead-man's switch. The
-- mutex makes each report one step. `F32` is the type of 32-bit floats with the comparison `<`, and
-- an `Instant` or a `Duration` is a number of nanoseconds; `saturating_duration_since` is the
-- subtraction of numbers.
pub mod Level
pub mod Recompute
pub mod Laws
pub mod Invariant
pub mod Deadman
pub mod Heartbeats
pub mod Recovery
