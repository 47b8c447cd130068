-- ===== src/Detection/Sqlite.antt =====
-- `SqliteDecisionStore` of daemon/crates/athar-detection/src/store.rs. The SQL statements and the JSON
-- library are parameters; a statement that fails leaves the database as it was. `Text` is the type of
-- the JSON bodies, and an i64 is kept as its 64-bit pattern.
pub mod Writing
use athar.Prelude.{
  ℕ, String, Bool, true, false, Option, none, some, List, [], ◌∷◌, and_then, unwrap_or,
}
use athar.Detection.Signals.{as_str}
use athar.Detection.Decision.{SignalRecord, DecisionRecord, DecisionStore, mode_str, action_str}

-- The values that the two insertions bind.
pub record SignalRow (F64 : Type 0) : Type 0 where
  pub signal_id : String
  pub tenant_id : String
  pub kind : String
  pub confidence : F64
  pub value : String
  pub threshold : Option String
  pub timestamp_ms : ℕ
  pub event_id : String
  pub lifecycle_id : Option String
  pub tracker_version : String

pub record DecisionRow (Text : Type 0) : Type 0 where
  pub decision_id : String
  pub tenant_id : String
  pub timestamp_ms : ℕ
  pub event_id : String
  pub lifecycle_id : Option String
  pub action : String
  pub mode : String
  pub body_json : Text

-- The statements over a database type `Q`; no result stands for an error or for no row.
pub record DecisionSql (Q Text F32 F64 : Type 0) : Type 0 where
  pub to_json : DecisionRecord F32 → Option Text
  pub from_json : Text → Option (DecisionRecord F32)
  pub widen : F32 → F64
  pub replace_signal : Q → SignalRow F64 → Option Q
  pub replace_decision : Q → DecisionRow Text → Option Q
  pub body_by_id : Q → String → Option Text
  pub recent_bodies : Q → ℕ → Option (List (Option Text))
  pub count_decision_rows : Q → Option ℕ
  pub count_signal_rows : Q → Option ℕ

unfoldable pub decision_row : {F32 Text : Type 0} → DecisionRecord F32 → Text → DecisionRow Text
unfolding action_str mode_str
decision_row r json = record {
  decision_id = r.decision_id;
  tenant_id = r.tenant_id;
  timestamp_ms = r.timestamp_ms;
  event_id = r.subject.event_id;
  lifecycle_id = r.subject.lifecycle_id;
  action = action_str r.action;
  mode = mode_str r.mode;
  body_json = json;
}

-- What an insertion leaves, and whether it succeeded.
unfoldable pub inserted : {Q : Type 0} → Q → Option Q → Q × Bool
inserted q none = (q, false)
inserted q (some q') = (q', true)

module _ {Q Text F32 F64 : Type 0} (sql : DecisionSql Q Text F32 F64) where
  unfoldable pub signal_row : SignalRecord F32 → SignalRow F64
  unfolding as_str
  signal_row r = record {
    signal_id = r.signal_id;
    tenant_id = r.tenant_id;
    kind = as_str r.kind;
    confidence = sql.widen r.confidence;
    value = r.value;
    threshold = r.threshold;
    timestamp_ms = r.timestamp_ms;
    event_id = r.event_id;
    lifecycle_id = r.lifecycle_id;
    tracker_version = r.tracker_version;
  }

  unfoldable pub write_signal : Q → SignalRecord F32 → Q × Bool
  unfolding signal_row inserted
  write_signal q r = inserted q (sql.replace_signal q (signal_row r))

  unfoldable pub write_decision : Q → DecisionRecord F32 → Q × Bool
  unfolding decision_row inserted
  write_decision q r =
      inserted q (and_then (sql.to_json r) (λ json. sql.replace_decision q (decision_row r json)))

  unfoldable pub get_decision : Q → String → Option (DecisionRecord F32)
  get_decision q id = and_then (sql.body_by_id q id) sql.from_json

  -- `filter_map`: a row or a body that cannot be read is left out.
  unfoldable pub read_rows : List (Option Text) → List (DecisionRecord F32)
  read_rows [] = []
  read_rows (row ∷ rest) = elim (and_then row sql.from_json) [
    | none ↦ read_rows rest
    | some r ↦ r ∷ read_rows rest
  ]

  unfoldable pub recent_decisions : Q → ℕ → List (DecisionRecord F32)
  unfolding read_rows
  recent_decisions q limit = read_rows (unwrap_or (sql.recent_bodies q limit) [])

  unfoldable pub sqlite_decisions : DecisionStore Q F32
  unfolding write_signal write_decision get_decision recent_decisions
  sqlite_decisions = record {
    write_signal = write_signal;
    write_decision = write_decision;
    get_decision = get_decision;
    recent_decisions = recent_decisions;
    count_decisions = λ q. unwrap_or (sql.count_decision_rows q) 0;
    count_signals = λ q. unwrap_or (sql.count_signal_rows q) 0;
  }
