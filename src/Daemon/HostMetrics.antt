-- ===== src/Daemon/HostMetrics.antt =====
-- A sample of daemon/crates/athar-daemon/src/host_metrics.rs and its report to the governor. The readings
-- of the `sysinfo` library are arguments, and the arithmetic on floats is a record of parameters.
use athar.Prelude.{ℕ, ◌-◌, Bool, ltb, if◌then◌else◌}
use athar.Governor.Recompute.{HostMetrics, Config, State, report_host}

pub record FloatMath (F32 F64 : Type 0) : Type 0 where
  pub zero : F32
  pub hundred : F32
  pub sub : F32 → F32 → F32
  pub clamp : F32 → F32 → F32 → F32
  pub of_ℕ : ℕ → F64
  pub hundred64 : F64
  pub div : F64 → F64 → F64
  pub mul : F64 → F64 → F64
  pub narrow : F64 → F32

module _ {F32 F64 : Type 0} (fm : FloatMath F32 F64) where
  unfoldable pub memory_free_pct : ℕ → ℕ → F32
  memory_free_pct mem_total mem_used =
      if ltb 0 mem_total
      then fm.narrow
          (fm.mul (fm.div (fm.of_ℕ (mem_total - mem_used)) (fm.of_ℕ mem_total)) fm.hundred64)
      else fm.hundred

  unfoldable pub sample : F32 → ℕ → ℕ → ℕ → HostMetrics F32
  unfolding memory_free_pct
  sample cpu_used_pct mem_total mem_used now = record {
    cpu_headroom_pct = fm.clamp (fm.sub fm.hundred cpu_used_pct) fm.zero fm.hundred;
    memory_free_pct = memory_free_pct mem_total mem_used;
    disk_free_pct = fm.hundred;
    taken_at = now;
  }

  -- A round of the collector.
  unfoldable pub collect : (F32 → F32 → Bool) → Config F32 → State F32 → F32 → ℕ → ℕ → ℕ → State F32
  unfolding sample report_host
  collect lt c s cpu_used_pct mem_total mem_used now =
      report_host lt c s (sample cpu_used_pct mem_total mem_used now)
