-- ===== src/Daemon/State.antt =====
-- What `ingest_one` of daemon/crates/athar-daemon/src/ingest.rs works on: the components that the
-- connections share, a frame on its way as a task, and what the code reads from outside.
use athar.Prelude.{ℕ, suc, String, Bool, Option, none, some, List, [], ◌∷◌, Bytes}
use athar.Event.Types.{Event}
use athar.Event.Validate.{ValidationError}
use athar.Lifecycle.Store.{LifecycleStore}
use athar.Lifecycle.Engine.{ApplyOutcome, created, updated, late_event, unbound}
use athar.Governor.Recompute.{State}
use athar.Audit.Chain.{Crypto}
use athar.Audit.Writer.{AuditChainWriter}
use athar.Storage.Log.{SegmentLog, Appended}
use athar.Detection.Policy.{PolicyConfig, Signal}
use athar.Detection.SignalConfig.{Formats}
use athar.Detection.Signals.{SignalEngine, tracker_version}
use athar.Detection.Decision.{SignalRecord, DecisionStore, record_from_signal}
use athar.Daemon.Drops.{DropCounters}
use athar.Daemon.Wire.{Serde}

-- What a step reads from outside: its clocks, fresh ULIDs, and whether the disk takes an audit segment
-- and the connection a frame.
pub record Moment : Type 0 where
  pub now_ms : ℕ
  pub now_us : ℕ
  pub now_secs : ℕ
  pub now_micros : ℕ
  pub latency_us : ℕ
  pub ulid : ℕ → String
  pub disk_ok : Bool
  pub connection_ok : Bool

-- The components that the connections share.
pub record Daemon (S D F32 F64 : Type 0) : Type 0 where
  pub log : SegmentLog
  pub audit : AuditChainWriter
  pub governor : State F32
  pub drops : DropCounters
  pub lifecycles : S
  pub signals : SignalEngine F64
  pub policies : PolicyConfig
  pub decisions : D

-- How a frame ends: dropped under pressure, answered with the status, refused, or ingested.
pub data Ended (F64 : Type 0) : Type 0 where
  dropped not_json not_an_event not_serialized not_audited ingested : Ended F64
  answered : Ended F64
  invalid : ValidationError F64 → Ended F64
  not_appended : Appended → Ended F64

-- A frame on its way: the event, its canonical bytes, and whether a response is wanted.
pub data Task (F64 Json : Type 0) : Type 0 where
  arrived : Bytes → Task F64 Json
  admitted recorded committed : Event F64 Json → Bytes → Bool → Task F64 Json
  applied : Event F64 Json → Option String → Bool → Task F64 Json
  finished : Ended F64 → Task F64 Json

-- The audit kind "event".
abbrev pub event_kind : Bytes
event_kind = 101 ∷ 118 ∷ 101 ∷ 110 ∷ 116 ∷ []

unfoldable pub lifecycle_id_of : ApplyOutcome → Option String
lifecycle_id_of (created id t state closure) = some id
lifecycle_id_of (updated id tier state closure) = some id
lifecycle_id_of (late_event id tier class) = some id
lifecycle_id_of unbound = none

-- The records of the signals, each with the next ULID.
unfoldable pub signal_records :
    {F32 : Type 0}
    → (ℕ → String)
    → ℕ
    → List (Signal F32)
    → String
    → String
    → Option String
    → ℕ
    → List (SignalRecord F32)
unfolding record_from_signal
signal_records ulid n [] tenant_id event_id lifecycle_id now_ms = []
signal_records ulid n (s ∷ ss) tenant_id event_id lifecycle_id now_ms =
    record_from_signal (ulid n) s tenant_id event_id lifecycle_id now_ms tracker_version
    ∷ signal_records ulid (suc n) ss tenant_id event_id lifecycle_id now_ms

-- What the code around the components is given: cryptography, JSON, formatting, the range test on
-- confidences, and the two stores.
pub record Outside (S D F32 F64 Json : Type 0) : Type 0 where
  pub crypto : Crypto
  pub serde : Serde F64 Json
  pub formats : Formats F32 F64 Json
  pub two_digits : F32 → String
  pub padded : ℕ → ℕ → String
  pub in_unit : F64 → Bool
  pub store : LifecycleStore S
  pub decisions : DecisionStore D F32

-- After a step: the components, the task, and what was written to the connection.
pub record Turn (S D F32 F64 Json : Type 0) : Type 0 where
  pub daemon : Daemon S D F32 F64
  pub task : Task F64 Json
  pub written : List Bytes

module _ {S D F32 F64 Json : Type 0} where
  abbrev pub turn : Daemon S D F32 F64 → Task F64 Json → List Bytes → Turn S D F32 F64 Json
  turn d task written = record { daemon = d; task = task; written = written }
