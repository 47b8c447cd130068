-- ===== src/Daemon/Coverage.antt =====
-- The coverage gaps of daemon/crates/athar-daemon/src/ingest.rs: `emit_coverage_gap_if_any`, a round of
-- `watch_pressure_and_emit_gaps`, and the end of `IngestServer::run`.
use athar.Prelude.{
  Bool, true, false, ◌&&◌, not, Option, none, some, List, [], ◌∷◌, Bytes, if◌then◌else◌,
}
use athar.Governor.Level.{PressureLevel, l4_safe_mode}
use athar.Governor.Recompute.{current_level}
use athar.Audit.Writer.{AuditChainWriter, observe, flush}
use athar.Storage.Log.{SegmentFile, append, close}
use athar.Daemon.Drops.{CoverageGapSummary, take}
use athar.Daemon.State.{Moment, Daemon, Outside}

-- The audit kind "coverage_gap".
abbrev pub gap_kind : Bytes
gap_kind = 99 ∷ 111 ∷ 118 ∷ 101 ∷ 114 ∷ 97 ∷ 103 ∷ 101 ∷ 95 ∷ 103 ∷ 97 ∷ 112 ∷ []

module _ {S D F32 F64 Json : Type 0} (out : Outside S D F32 F64 Json) where
  -- The payload goes to the log, whose error is only reported, and then to the audit chain.
  unfoldable pub record_gap : Moment → Daemon S D F32 F64 → Bytes → Daemon S D F32 F64
  unfolding append observe
  record_gap m d payload = record d {
    log = (append d.log payload).0;
    audit = (observe out.crypto m.disk_ok d.audit gap_kind payload m.now_us).0;
  }

  -- With the payload, if serde_json could spell it.
  unfoldable pub emit_payload : Moment → Daemon S D F32 F64 → Option Bytes → Daemon S D F32 F64
  unfolding record_gap
  emit_payload m d none = d
  emit_payload m d (some payload) = record_gap m d payload

  unfoldable pub emit_summary :
      Moment → Daemon S D F32 F64 → Option CoverageGapSummary → Daemon S D F32 F64
  unfolding emit_payload
  emit_summary m d none = d
  emit_summary m d (some summary) = emit_payload m d (out.serde.gap_bytes summary m.now_ms)

  unfoldable pub emit_coverage_gap_if_any : Moment → Daemon S D F32 F64 → Daemon S D F32 F64
  unfolding take emit_summary
  emit_coverage_gap_if_any m d =
      let r = take d.drops in emit_summary m (record d { drops = r.0 }) r.1

  abbrev pub is_l4 : PressureLevel → Bool
  is_l4 l4_safe_mode = true
  is_l4 _ = false

  -- A round of the watcher: what it knew of safe mode, and the components.
  unfoldable pub watch_pressure : Moment → Bool → Daemon S D F32 F64 → Bool × Daemon S D F32 F64
  unfolding emit_coverage_gap_if_any
  watch_pressure m was_l4 d =
      let now_l4 = is_l4 (current_level d.governor) in
      (now_l4, (if was_l4 && not now_l4 then emit_coverage_gap_if_any m d else d))

  -- What a shutdown leaves: the audit writer after its flush, and the files of the closed log.
  unfoldable pub shutdown : Moment → Daemon S D F32 F64 → AuditChainWriter × List SegmentFile
  unfolding emit_coverage_gap_if_any flush close
  shutdown m d =
      let d' = emit_coverage_gap_if_any m d in ((flush m.disk_ok d'.audit).0, close d'.log)
