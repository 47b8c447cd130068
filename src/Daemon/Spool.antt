-- ===== src/Daemon/Spool.antt =====
-- `ShimSpoolCollector` of daemon/crates/athar-daemon/src/shim_spool.rs. The directory is the list of
-- its entries; what reading a line takes from the library (`trim` and serde_json) is a parameter, and a
-- drain runs without another task in between.
use athar.Prelude.{
  ℕ, ◌+◌, String, Bool, true, false, ◌&&◌, not, Option, none, some, List, [], ◌∷◌, ◌++◌, Bytes,
  str_eq, if◌then◌else◌,
}
use athar.Audit.Chain.{Crypto}
use athar.Audit.Writer.{AuditChainWriter, Outcome, failed, observe}
use athar.Storage.Log.{SegmentLog, Appended, done, append}
use athar.Daemon.Coverage.{gap_kind}

-- An i64 is kept as its 64-bit pattern.
pub record ShimLossRecord : Type 0 where
  pub kind : String
  pub reason : String
  pub shim_pid : ℕ
  pub at_ms : ℕ
  pub frames_lost : ℕ
  pub bytes_lost : ℕ
  pub tenant_id : String

abbrev pub default_tenant : String
default_tenant = "tnt_unknown"

pub record Entry : Type 0 where
  pub is_file : Bool
  pub extension : Option String
  pub lines : Option (List String)
  pub removable : Bool

-- What the collector shares with the other tasks.
pub record Sinks : Type 0 where
  pub log : SegmentLog
  pub audit : AuditChainWriter

-- `trim`, `from_str` and the payload of a record with the time of its ingest; the clocks, and
-- whether the disk takes an audit segment.
pub record Reading : Type 0 where
  pub trim : String → String
  pub parse : String → Option ShimLossRecord
  pub payload : ShimLossRecord → ℕ → Option Bytes
  pub now_ms : ℕ
  pub now_us : ℕ
  pub disk_ok : Bool

abbrev pub is_done : Appended → Bool
is_done (done receipt) = true
is_done refusal = false

abbrev pub is_failed : Outcome → Bool
is_failed failed = true
is_failed _ = false

-- A line that is blank or malformed is skipped.
unfoldable pub read_line : Reading → String → Option ShimLossRecord
read_line r raw = if str_eq (r.trim raw) "" then none else r.parse (r.trim raw)

-- After a drain: the log and the audit writer, what is left in the directory, and the records that
-- were ingested.
pub record Drained : Type 0 where
  pub sinks : Sinks
  pub left : List Entry
  pub ingested : ℕ

module _ (crypto : Crypto) (r : Reading) where
  -- The log first; the chain only if the log took the payload. With whether all went well.
  unfoldable pub ingest_payload : Sinks → Option Bytes → Sinks × Bool
  unfolding append observe
  ingest_payload s none = (s, false)
  ingest_payload s (some payload) =
      let a = append s.log payload in
      let o = observe crypto r.disk_ok s.audit gap_kind payload r.now_us in
      if is_done a.1
      then (record { log = a.0; audit = o.0 }, not (is_failed o.1))
      else (record s { log = a.0 }, false)

  unfoldable pub ingest_record : Sinks → ShimLossRecord → Sinks × Bool
  unfolding ingest_payload
  ingest_record s rec = ingest_payload s (r.payload rec r.now_ms)

  -- The number of records ingested, or nothing after an error, which ends the file.
  unfoldable pub ingest_lines : Sinks → ℕ → List String → Sinks × Option ℕ
  unfolding ingest_record read_line
  ingest_lines s n [] = (s, some n)
  ingest_lines s n (raw ∷ rest) = elim (read_line r raw) [
    | none ↦ ingest_lines s n rest
    | some rec ↦
        let i = ingest_record s rec in
        elim i.1 [ true ↦ ingest_lines i.0 (n + 1) rest | false ↦ (i.0, none) ]
  ]

  unfoldable pub ingest_file : Sinks → Option (List String) → Sinks × Option ℕ
  unfolding ingest_lines
  ingest_file s none = (s, none)
  ingest_file s (some lines) = ingest_lines s 0 lines

  abbrev pub is_spool : Entry → Bool
  is_spool e = e.is_file && elim e.extension [ none ↦ false | some x ↦ str_eq x "jsonl" ]

  -- What stays of a file, after an error or a number of records.
  abbrev kept : Entry → Option ℕ → List Entry
  kept e none = e ∷ []
  kept e (some n) = if e.removable then [] else e ∷ []

  abbrev count : Option ℕ → ℕ
  count none = 0
  count (some n) = n

  unfoldable pub drain : Sinks → List Entry → Drained
  unfolding ingest_file
  drain s [] = record { sinks = s; left = []; ingested = 0 }
  drain s (e ∷ rest) = elim (is_spool e) [
    | true ↦
        let i = ingest_file s e.lines in
        let d = drain i.0 rest in
        record { sinks = d.sinks; left = kept e i.1 ++ d.left; ingested = count i.1 + d.ingested }
    | false ↦ let d = drain s rest in record d { left = e ∷ d.left }
  ]
