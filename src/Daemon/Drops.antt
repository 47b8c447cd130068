-- ===== src/Daemon/Drops.antt =====
-- `DropCounters` of daemon/crates/athar-daemon/src/ingest.rs. The clock is an argument, and a call runs
-- without another one in between; the single atomic operations of two calls are not interleaved.
use athar.Prelude.{ℕ, ◌==◌, Option, none, some, add64, if◌then◌else◌}

pub record DropCounters : Type 0 where
  pub frames : ℕ
  pub bytes : ℕ
  pub since_ms : ℕ

pub record CoverageGapSummary : Type 0 where
  pub frames : ℕ
  pub bytes : ℕ
  pub window_started_at_ms : ℕ

-- `DropCounters::default()`.
abbrev pub no_drops : DropCounters
no_drops = record { frames = 0; bytes = 0; since_ms = 0 }

-- `record`: the first drop of a window sets its start.
unfoldable pub count_drop : DropCounters → ℕ → ℕ → DropCounters
count_drop c frame_bytes now_ms = record {
  frames = add64 c.frames 1;
  bytes = add64 c.bytes frame_bytes;
  since_ms = if c.frames == 0 then now_ms else c.since_ms;
}

unfoldable pub take : DropCounters → DropCounters × Option CoverageGapSummary
take c = if c.frames == 0 then (record c { frames = 0 }, none) else (
  no_drops,
  some (record { frames = c.frames; bytes = c.bytes; window_started_at_ms = c.since_ms }),
)

abbrev pub pending_frames : DropCounters → ℕ
pending_frames c = c.frames

abbrev pub pending_bytes : DropCounters → ℕ
pending_bytes c = c.bytes
