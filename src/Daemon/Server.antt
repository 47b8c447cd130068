-- ===== src/Daemon/Server.antt =====
-- `IngestServer::new`, `process_stream` and a round of `run_staleness_scanner` of
-- daemon/crates/athar-daemon/src/ingest.rs. What opening the files gives is an argument, nothing where
-- it fails.
use athar.Prelude.{ℕ, suc, Option, some, List, [], ◌∷◌, ◌++◌, Bytes, and_then}
use athar.Governor.Recompute
use athar.Lifecycle.Scanner.{sweep}
use athar.Audit.Chain.{Signer}
use athar.Audit.Store.{SegmentStore}
use athar.Audit.Writer.{open_writer, with_max_records_per_segment}
use athar.Storage.Log.{SegmentFile, open_log}
use athar.Storage.Log
use athar.Detection.Signals
use athar.Detection.Loading.{DetectionConfig}
use athar.Daemon.Config.{Config}
use athar.Daemon.Drops.{no_drops}
use athar.Daemon.State.{Moment, Daemon, Outside}
use athar.Daemon.Ingest.{ingest_one}

-- The text "tnt_default".
abbrev pub default_tenant_id : Bytes
default_tenant_id = 116 ∷ 110 ∷ 116 ∷ 95 ∷ 100 ∷ 101 ∷ 102 ∷ 97 ∷ 117 ∷ 108 ∷ 116 ∷ []

unfoldable pub log_config : {F32 : Type 0} → Config F32 → Log.Config
log_config c = record {
  max_segment_bytes = c.max_segment_bytes;
  max_record_bytes = c.max_record_bytes;
  quota = record { limit_bytes = c.quota_bytes };
}

-- What the data directory holds.
pub record Opened (S D : Type 0) : Type 0 where
  pub evidence : Option (List SegmentFile)
  pub signer : Option Signer
  pub audit_segments : Option SegmentStore
  pub lifecycles : Option S
  pub decisions : Option D

unfoldable pub new_server :
    {S D F32 F64 : Type 0}
    → Config F32
    → DetectionConfig F64
    → ℕ
    → Opened S D
    → Option (Daemon S D F32 F64)
unfolding log_config open_log open_writer with_max_records_per_segment Recompute.new Signals.new
new_server c detection start o = and_then o.evidence (λ files. and_then o.signer (λ signer.
    and_then o.audit_segments (λ segments. and_then o.lifecycles (λ lifecycles.
      and_then o.decisions (λ decisions. some (record {
        log = open_log (log_config c) files;
        audit =
            with_max_records_per_segment (open_writer segments default_tenant_id signer)
              c.audit_records_per_segment;
        governor = Recompute.new start;
        drops = no_drops;
        lifecycles = lifecycles;
        signals = Signals.new detection.signals;
        policies = detection.policies;
        decisions = decisions;
      }))))))

-- What the framed reader yields: a frame, or an error that closes the connection.
pub data Framed : Type 0 where
  decoded : Bytes → Framed
  undecodable : Framed

module _ {S D F32 F64 Json : Type 0} (out : Outside S D F32 F64 Json) where
  -- The components and what was written to the connection; an error of a frame is only reported. The
  -- clocks are those of the frame with a number.
  unfoldable pub process_stream :
      (ℕ → ℕ → Moment) → ℕ → Daemon S D F32 F64 → List Framed → Daemon S D F32 F64 × List Bytes
  unfolding ingest_one
  process_stream moments n d [] = (d, [])
  process_stream moments n d (undecodable ∷ rest) = (d, [])
  process_stream moments n d (decoded frame ∷ rest) =
      let t = ingest_one out (moments n) d frame in
      let later = process_stream moments (suc n) t.daemon rest in (later.0, t.written ++ later.1)

  -- A round of the scanner.
  unfoldable pub scan : Moment → Daemon S D F32 F64 → Daemon S D F32 F64
  unfolding sweep
  scan m d = record d { lifecycles = (sweep out.store d.lifecycles m.now_ms).0 }
