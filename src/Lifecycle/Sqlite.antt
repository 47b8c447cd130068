-- ===== src/Lifecycle/Sqlite.antt =====
-- `SqliteLifecycleStore` of daemon/crates/athar-lifecycle/src/sqlite_store.rs. The SQL statements are
-- calls of a library, so they are parameters: each may fail, and on a transaction it works on the
-- database as the transaction sees it. A transaction that is not committed leaves the database as it
-- was. `Text` is the type of the JSON bodies.
pub mod Atomicity
use athar.Prelude.{
  ℕ, ◌%◌, String, Option, none, some, List, [], ◌∷◌, and_then, unwrap_or, map, u64_size,
}
use athar.Lifecycle.Types.{
  LifecycleType, payment, State, started, processing, pending, success, failed, cancelled, rejected,
  timeout, expired, abandoned, reversed, compensated, partially_completed, conflicted, Closure,
  opened, closed, closed_with_exception, closed_with_uncertainty, Lifecycle,
}
use athar.Lifecycle.Store.{LifecycleStore}

unfoldable pub state_str : State → String
state_str started = "Started"
state_str processing = "Processing"
state_str pending = "Pending"
state_str success = "Success"
state_str failed = "Failed"
state_str cancelled = "Cancelled"
state_str rejected = "Rejected"
state_str timeout = "Timeout"
state_str expired = "Expired"
state_str abandoned = "Abandoned"
state_str reversed = "Reversed"
state_str compensated = "Compensated"
state_str partially_completed = "PartiallyCompleted"
state_str conflicted = "Conflicted"
state_str State.unknown = "Unknown"

unfoldable pub closure_str : Closure → String
closure_str opened = "Open"
closure_str closed = "Closed"
closure_str closed_with_exception = "ClosedWithException"
closure_str closed_with_uncertainty = "ClosedWithUncertainty"

unfoldable pub lct_str : LifecycleType → String
lct_str payment = "Payment"

-- The values that the row of a lifecycle binds. An i64 is kept as its 64-bit pattern.
pub record Row (Text : Type 0) : Type 0 where
  pub id : String
  pub tenant_id : String
  pub lifecycle_type : String
  pub business_key : Option String
  pub resource_id : Option String
  pub state : String
  pub closure : String
  pub started_at_ms : ℕ
  pub last_event_at_ms : ℕ
  pub closed_at_ms : Option ℕ
  pub body_json : Text

-- The statements over a database type `Q`; no result stands for an error or for no row.
pub record Sql (Q Text : Type 0) : Type 0 where
  pub to_json : Lifecycle → Option Text
  pub from_json : Text → Option Lifecycle
  pub begin_transaction : Q → Option Q
  pub commit : Q → Option Q
  pub replace_lifecycle : Q → Row Text → Option Q
  pub replace_binding : Q → String → String → Option Q
  pub body_by_id : Q → String → Option Text
  pub id_by_resource : Q → String → Option String
  pub id_by_business_key : Q → String → Option String
  pub lifecycle_by_event : Q → String → Option String
  pub open_bodies : Q → List Text
  pub count_rows : Q → Option ℕ
  pub count_open_rows : Q → Option ℕ

unfoldable pub row_of : {Text : Type 0} → Lifecycle → Text → Row Text
unfolding state_str closure_str lct_str
row_of lc json = record {
  id = lc.id;
  tenant_id = lc.tenant_id;
  lifecycle_type = lct_str lc.lifecycle_type;
  business_key = lc.business_key;
  resource_id = lc.resource;
  state = state_str lc.state;
  closure = closure_str lc.closure;
  started_at_ms = lc.started_at_ms;
  last_event_at_ms = lc.last_event_at_ms;
  closed_at_ms = lc.closed_at_ms;
  body_json = json;
}

module _ {Q Text : Type 0} (sql : Sql Q Text) where
  unfoldable pub get : Q → String → Option Lifecycle
  get q id = and_then (sql.body_by_id q id) sql.from_json

  -- The loop on the events; none after the first binding that fails.
  unfoldable pub bind_events : Q → String → List String → Option Q
  bind_events tx id [] = some tx
  bind_events tx id (ev ∷ evs) =
      and_then (sql.replace_binding tx ev id) (λ tx'. bind_events tx' id evs)

  -- The transaction of `upsert`.
  unfoldable pub transact : Q → Lifecycle → Text → Option Q
  unfolding row_of bind_events
  transact q lc json = and_then (sql.begin_transaction q) (λ tx.
      and_then (sql.replace_lifecycle tx (row_of lc json))
        (λ tx'. and_then (bind_events tx' lc.id lc.event_ids) sql.commit))

  unfoldable pub upsert : Q → Lifecycle → Q
  unfolding transact
  upsert q lc = unwrap_or (and_then (sql.to_json lc) (transact q lc)) q

  unfoldable pub record_event : Q → String → String → Q
  record_event q event_id lifecycle_id = unwrap_or (sql.replace_binding q event_id lifecycle_id) q

  -- `filter_map`: a body that cannot be read back is left out.
  unfoldable pub read_bodies : List Text → List Lifecycle
  read_bodies [] = []
  read_bodies (json ∷ rest) = elim (sql.from_json json) [
    | none ↦ read_bodies rest
    | some lc ↦ lc ∷ read_bodies rest
  ]

  unfoldable pub sqlite : LifecycleStore Q
  unfolding get upsert record_event read_bodies
  sqlite = record {
    get = get;
    find_by_resource = sql.id_by_resource;
    find_by_business_key = sql.id_by_business_key;
    find_by_event = sql.lifecycle_by_event;
    upsert = upsert;
    record_event = record_event;
    all_open = λ q. read_bodies (sql.open_bodies q);
    count = λ q. unwrap_or (sql.count_rows q) 0;
    count_open = λ q. unwrap_or (sql.count_open_rows q) 0;
  }
