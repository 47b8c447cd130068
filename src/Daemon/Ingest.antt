-- ===== src/Daemon/Ingest.antt =====
-- The ingest of one frame (`ingest_one` of daemon/crates/athar-daemon/src/ingest.rs) over the
-- components. A frame is a task that goes through the steps between which the code waits for a lock,
-- so tasks of several connections may take turns; `ingest_one` is a task that runs to its end.
pub mod Endings
pub mod Admission
pub mod Outcomes
pub mod Evidence
pub mod Interleaving
pub mod Before
pub mod Steps
pub mod Safety
pub mod Closing
use athar.Prelude.{
  ℕ, String, Bool, false, Option, none, some, List, [], ◌∷◌, ◌++◌, Bytes, length, and_then,
  unwrap_or, if◌then◌else◌,
}
use athar.Event.Types.{Event}
use athar.Event.Validate.{Checked, ok, err, validate}
use athar.Lifecycle.Engine
use athar.Governor.Level.{p1, allows}
use athar.Governor.Recompute.{current_level}
use athar.Audit.Writer.{Outcome, failed, saved, nothing, observe}
use athar.Storage.Log.{Appended, done, append}
use athar.Detection.Policy.{Signal, evaluate}
use athar.Detection.Signals
use athar.Detection.Decision.{SignalRecord, DecisionRecord, build}
use athar.Daemon.Drops.{count_drop, pending_frames, pending_bytes}
use athar.Daemon.Wire.{StatusBody, level_str, write_json_frame, decision_body}
use athar.Daemon.Calendar.{now_rfc3339}
use athar.Daemon.State.{
  Moment, Daemon, Ended, dropped, not_json, not_an_event, not_serialized, not_audited, ingested,
  answered, invalid, not_appended, Task, arrived, admitted, recorded, committed, applied, finished,
  event_kind, lifecycle_id_of, signal_records, Outside, Turn,
}

module _ {S D F32 F64 Json : Type 0} (out : Outside S D F32 F64 Json) where
  unfoldable pub build_status_body : Moment → Daemon S D F32 F64 → StatusBody
  unfolding level_str
  build_status_body m d = record {
    timestamp_ms = m.now_ms;
    pressure_level = level_str (current_level d.governor);
    pending_drops_frames = pending_frames d.drops;
    pending_drops_bytes = pending_bytes d.drops;
    lifecycles_total = out.store.count d.lifecycles;
    lifecycles_open = out.store.count_open d.lifecycles;
    decisions_total = out.decisions.count_decisions d.decisions;
    signals_total = out.decisions.count_signals d.decisions;
  }

  unfoldable pub serialized : Event F64 Json → Bool → Option Bytes → Task F64 Json
  serialized e wants none = finished not_serialized
  serialized e wants (some b) = admitted e b wants

  -- A valid event with the daemon's own time of receipt.
  unfoldable pub checked : Moment → Bool → Event F64 Json → Checked F64 → Task F64 Json
  unfolding serialized now_rfc3339
  checked m wants e (err x) = finished (invalid x)
  checked m wants e ok =
      let e' = record e { received_at = now_rfc3339 out.padded m.now_secs m.now_micros } in
      serialized e' wants (out.serde.event_bytes e')

  unfoldable pub converted : Moment → Bool → Option (Event F64 Json) → Task F64 Json
  unfolding checked validate
  converted m wants none = finished not_an_event
  converted m wants (some e) = checked m wants e (validate out.in_unit e)

  abbrev pub is_set : Json → String → Bool
  is_set raw name = unwrap_or (out.serde.flag raw name) false

  unfoldable pub parsed : Moment → Daemon S D F32 F64 → Option Json → Turn S D F32 F64 Json
  unfolding converted build_status_body write_json_frame
  parsed m d none = record { daemon = d; task = finished not_json; written = [] }
  parsed m d (some raw) =
      if is_set raw "__status__"
      then record {
        daemon = d;
        task = finished answered;
        written = write_json_frame m.connection_ok (out.serde.status_bytes (build_status_body m d));
      }
      else record {
        daemon = d;
        task = converted m (is_set raw "__evaluate__") (out.serde.to_event raw);
        written = [];
      }

  -- Up to the first lock: the pressure, the flags, the event.
  unfoldable pub admit : Moment → Daemon S D F32 F64 → Bytes → Turn S D F32 F64 Json
  unfolding parsed allows count_drop
  admit m d frame =
      if allows (current_level d.governor) p1 then parsed m d (out.serde.parse frame) else record {
        daemon = record d { drops = count_drop d.drops (length frame) m.now_ms };
        task = finished dropped;
        written = [];
      }

  unfoldable pub after_append : Event F64 Json → Bytes → Bool → Appended → Task F64 Json
  after_append e b wants (done receipt) = recorded e b wants
  after_append e b wants refusal = finished (not_appended refusal)

  unfoldable pub append_evidence :
      Daemon S D F32 F64 → Event F64 Json → Bytes → Bool → Turn S D F32 F64 Json
  unfolding append after_append
  append_evidence d e b wants =
      let r = append d.log b in
      record { daemon = record d { log = r.0 }; task = after_append e b wants r.1; written = [] }

  unfoldable pub after_observe : Event F64 Json → Bytes → Bool → Outcome → Task F64 Json
  after_observe e b wants failed = finished not_audited
  after_observe e b wants nothing = committed e b wants
  after_observe e b wants (saved id) = committed e b wants

  unfoldable pub commit :
      Moment → Daemon S D F32 F64 → Event F64 Json → Bytes → Bool → Turn S D F32 F64 Json
  unfolding observe after_observe
  commit m d e b wants =
      let r = observe out.crypto m.disk_ok d.audit event_kind b m.now_us in
      record { daemon = record d { audit = r.0 }; task = after_observe e b wants r.1; written = [] }

  unfoldable pub project :
      Moment → Daemon S D F32 F64 → Event F64 Json → Bool → Turn S D F32 F64 Json
  unfolding Engine.apply lifecycle_id_of
  project m d e wants =
      let r = Engine.apply out.store d.lifecycles e m.now_ms in
      record {
        daemon = record d { lifecycles = r.0 };
        task = applied e (lifecycle_id_of r.1) wants;
        written = [];
      }

  -- `write_signal` for each record; its errors are logged.
  unfoldable pub write_signals : D → List (SignalRecord F32) → D
  write_signals s [] = s
  write_signals s (r ∷ rs) = write_signals (out.decisions.write_signal s r).0 rs

  -- The records of the event's signals.
  unfoldable pub records_of :
      Moment → Event F64 Json → Option String → List (Signal F32) → List (SignalRecord F32)
  unfolding signal_records
  records_of m e lifecycle_id signals =
      signal_records m.ulid 0 signals e.tenant_id e.event_id lifecycle_id m.now_ms

  unfoldable pub decision_of :
      Moment
      → Daemon S D F32 F64
      → Event F64 Json
      → Option String
      → List (Signal F32)
      → DecisionRecord F32
  unfolding build records_of evaluate level_str
  decision_of m d e lifecycle_id signals =
      build out.formats.decimal out.two_digits (m.ulid (length signals)) e.tenant_id
        (record {
          lifecycle_id = lifecycle_id;
          event_id = e.event_id;
          operation_id = and_then e.operation (λ o. o.operation_id);
        })
        (evaluate d.policies signals) (records_of m e lifecycle_id signals) m.now_ms
        (level_str (current_level d.governor)) m.latency_us

  unfoldable pub decide :
      Moment → Daemon S D F32 F64 → Event F64 Json → Option String → Bool → Turn S D F32 F64 Json
  unfolding Signals.evaluate records_of decision_of write_signals write_json_frame decision_body
  decide m d e lifecycle_id wants =
      let r = Signals.evaluate out.formats d.signals e m.now_ms in
      let decision = decision_of m d e lifecycle_id r.1 in
      let kept = write_signals d.decisions (records_of m e lifecycle_id r.1) in
      let body = out.serde.decision_bytes (decision_body decision) in
      record {
        daemon = record d {
          signals = r.0;
          decisions = (out.decisions.write_decision kept decision).0;
        };
        task = finished ingested;
        written = if wants then write_json_frame m.connection_ok body else [];
      }

  unfoldable pub step : Moment → Daemon S D F32 F64 → Task F64 Json → Turn S D F32 F64 Json
  unfolding admit append_evidence commit project decide
  step m d (arrived frame) = admit m d frame
  step m d (admitted e b wants) = append_evidence d e b wants
  step m d (recorded e b wants) = commit m d e b wants
  step m d (committed e b wants) = project m d e wants
  step m d (applied e lifecycle_id wants) = decide m d e lifecycle_id wants
  step m d (finished how) = record { daemon = d; task = finished how; written = [] }

  -- The next step of a turn, with what it writes after what was written.
  unfoldable pub next : Moment → Turn S D F32 F64 Json → Turn S D F32 F64 Json
  unfolding step
  next m t =
      let u = step m t.daemon t.task in
      record { daemon = u.daemon; task = u.task; written = t.written ++ u.written }

  -- A frame that nothing interrupts; the clocks of the steps are those of `moments`.
  unfoldable pub ingest_one : (ℕ → Moment) → Daemon S D F32 F64 → Bytes → Turn S D F32 F64 Json
  unfolding next admit
  ingest_one moments d frame =
      next (moments 4)
        (next (moments 3) (next (moments 2) (next (moments 1) (admit (moments 0) d frame))))
