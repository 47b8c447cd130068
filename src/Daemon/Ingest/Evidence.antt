-- ===== src/Daemon/Ingest/Evidence.antt =====
-- Frames of several connections and the background tasks of the daemon, in any order of their steps.
use athar.Prelude.{ℕ, ◌+◌, ◌<◌, ◌≡◌, ◌≢◌, refl, Bool, List, Bytes, u32_size, u64_size}
use athar.Audit.Record.{ChainedRecord}
use athar.Audit.Chain.{Crypto, chained, payload_commitment}
use athar.Audit.Writer.{AuditChainWriter, observed, observe}
use athar.Audit.Everywhere.{Everywhere, Everywhere-map, observe-Everywhere}
use athar.Storage.Log.{SegmentLog, SegmentFile, Config, append}
use athar.Storage.Invariant.{Inv}
use athar.Storage.History.{append-Inv}
use athar.Storage.Holding.{Holds, Holds-log_append}
use athar.Daemon.State.{Task, arrived, admitted, recorded, committed, applied, finished, event_kind}
use athar.Daemon.Coverage.{gap_kind}

-- A record of the audit chain, if it commits to an event, commits to bytes that the log holds.
abbrev pub Backed : Crypto → List SegmentFile → ChainedRecord → Type 0
Backed crypto fs cr =
    cr.entry.kind ≡ event_kind
    → (b : Bytes) × (cr.entry.payload_commitment ≡ payload_commitment crypto b) × Holds b fs

-- Whatever is held stays held.
abbrev pub Grows : List SegmentFile → List SegmentFile → Type 0
Grows fs gs = (b : Bytes) → Holds b fs → Holds b gs

-- Of a frame on its way, the evidence that is about to be committed to is in the log.
abbrev pub IsHeld : {F64 Json : Type 0} → List SegmentFile → Task F64 Json → Type 0
IsHeld fs (recorded e b wants) = Holds b fs
IsHeld fs task = Unit {0}

pub gap_kind-event_kind : gap_kind ≢ event_kind
gap_kind-event_kind e = cc e

-- The log and the audit writer after a number of calls.
pub record Sound (crypto : Crypto) (config : Config) (n : ℕ) (log : SegmentLog)
    (audit : AuditChainWriter) : Type 0 where
  pub log_inv : Inv config n log
  pub backed : Everywhere (Backed crypto log.files) audit

Backed-Grows :
    (crypto : Crypto) (fs gs : List SegmentFile) (cr : ChainedRecord)
    → Grows fs gs
    → Backed crypto fs cr
    → Backed crypto gs cr
Backed-Grows crypto fs gs cr g h k = let (b, same, held) = h k in (b, same, g b held)

pub IsHeld-Grows :
    {F64 Json : Type 0} (fs gs : List SegmentFile) (task : Task F64 Json)
    → Grows fs gs
    → IsHeld fs task
    → IsHeld gs task
IsHeld-Grows fs gs (recorded e b wants) g h = g b h
IsHeld-Grows fs gs (arrived f) g h = tt
IsHeld-Grows fs gs (admitted e b wants) g h = tt
IsHeld-Grows fs gs (committed e b wants) g h = tt
IsHeld-Grows fs gs (applied e id wants) g h = tt
IsHeld-Grows fs gs (finished how) g h = tt

module _ (crypto : Crypto) (config : Config) (record_bound : config.max_record_bytes < u32_size)
    (quota_bound : config.quota.limit_bytes < u64_size) where
  pub append-Sound :
      (n : ℕ) (log : SegmentLog) (audit : AuditChainWriter) (b : Bytes)
      → n + 1 < u64_size
      → Sound crypto config n log audit
      → Sound crypto config (n + 1) (append log b).0 audit
  append-Sound n log audit b small v = record {
    log_inv = append-Inv config n log b record_bound quota_bound small v.log_inv;
    backed =
        Everywhere-map _ _ audit
          (λ cr.
            Backed-Grows crypto log.files (append log b).0.files cr (λ d. Holds-log_append d b log))
          v.backed;
  }

  -- A commitment to an event that the log holds, or to something else.
  pub observe-Sound :
      (n : ℕ) (log : SegmentLog) (audit : AuditChainWriter) (disk_ok : Bool) (kind b : Bytes)
      (now : ℕ)
      → (kind ≡ event_kind → Holds b log.files)
      → Sound crypto config n log audit
      → Sound crypto config n log (observe crypto disk_ok audit kind b now).0
  unfolding observed chained
  observe-Sound n log audit disk_ok kind b now held v = record {
    log_inv = v.log_inv;
    backed =
        observe-Everywhere (Backed crypto log.files) crypto disk_ok audit kind b now
          (λ k. (b, refl, held k)) v.backed;
  }
