-- ===== src/Tests/Clients.antt =====
-- The command line's status query, the SQLite store and the policy watcher at concrete inputs.
use athar.Prelude.{
  ℕ, ◌≡◌, ◌⊎◌, refl, sym, ap, ◌∙◌, String, true, false, Option, none, some, List, [], ◌∷◌, ◌++◌,
  Bytes, str_eq, if◌then◌else◌, arith, eq_iff,
}
use athar.Prelude.Maps.{Map, get, insert, get-insert}
use athar.Lifecycle.Types.{Lifecycle}
use athar.Lifecycle.Sqlite.{Sql, upsert}
use athar.Lifecycle.Sqlite.Atomicity.{Documented, IsStored, upsert-IsStored}
use athar.Lifecycle.InMemory.{InMemoryStore}
use athar.Detection.Policy.{PolicyConfig, default_rule, default_config}
use athar.Governor.Level.{allows}
use athar.Governor.Recompute
use athar.Daemon.State.{Outside}
use athar.Daemon.Ingest.{ingest_one}
use athar.Daemon.Reload.{Polled, found, not_found, watch}
use athar.Daemon.Reload.Watching.{in_force, run-watch}
use athar.Daemon.Reload.Watching
use athar.Cli.Client.{Link, parse_body, query_status_body}
use athar.Cli.Status.{Works, AsksStatus, flat, query_status_body-ingest_one}
use athar.Tests.Pipelines.{Json, out, daemon, moment}
use athar.Tests.Lifecycles.{settled}

-- A JSON library that finds every flag set.
abbrev asking : Outside InMemoryStore ℕ ℕ ℕ Json
asking = record out { serde = record out.serde { flag = λ j name. some true } }

abbrev written : Bytes
written = flat asking (ingest_one asking (λ n. moment) daemon (9 ∷ [])).written

abbrev link : Link
link = record {
  resolves = true;
  connects = true;
  request = some (9 ∷ []);
  header_sent = true;
  body_sent = true;
  reply = written ++ 7 ∷ [];
}

link-Works : Works link
link-Works = record {
  resolves = refl;
  connects = refl;
  body = 9 ∷ [];
  request = refl;
  header_sent = refl;
  body_sent = refl;
}

asks : AsksStatus asking daemon (9 ∷ [])
unfolding allows Recompute.new
asks = record { admitted = refl; raw = tt; parses = refl; flagged = refl }

query_status_body-ingest_one_example :
    query_status_body (λ b. some tt) link ≡ parse_body (λ b. some tt) (some tt)
query_status_body-ingest_one_example =
    query_status_body-ingest_one asking (λ n. moment) daemon (9 ∷ []) (4 ∷ []) (7 ∷ []) link
      (λ b. some tt) asks refl refl (omega arith) (omega arith) link-Works refl

-- A database of two tables, whose bodies are the lifecycles themselves.
record Database : Type 0 where
  rows : Map Lifecycle
  bindings : Map String

abbrev tables : Sql Database Lifecycle
tables = record {
  to_json = λ lc. some lc;
  from_json = λ lc. some lc;
  begin_transaction = λ q. some q;
  commit = λ q. some q;
  replace_lifecycle = λ q row. some (record q { rows = insert row.id row.body_json q.rows });
  replace_binding = λ q ev lc. some (record q { bindings = insert ev lc q.bindings });
  body_by_id = λ q id. get id q.rows;
  id_by_resource = λ q r. none;
  id_by_business_key = λ q k. none;
  lifecycle_by_event = λ q ev. get ev q.bindings;
  open_bodies = λ q. [];
  count_rows = λ q. none;
  count_open_rows = λ q. none;
}

some_same : {A : Type 0} (a b : A) → some a ≡ some b → b ≡ a
some_same a b h = cc

tables-Documented : Documented tables
tables-Documented = record {
  reads_back = λ lc json h. sym h;
  body_by_id-begin_transaction =
      λ q tx id h. ap (λ (x : Database). get id x.rows) (some_same q tx h);
  body_by_id-commit = λ tx q id h. ap (λ (x : Database). get id x.rows) (some_same tx q h);
  body_by_id-replace_lifecycle = λ q q' row h.
      ap (λ (x : Database). get row.id x.rows) (some_same _ q' h) ∙ at row.id row.body_json q.rows;
  body_by_id-replace_binding =
      λ q q' ev lc id h. ap (λ (x : Database). get id x.rows) (some_same _ q' h);
  lifecycle_by_event-begin_transaction =
      λ q tx ev h. ap (λ (x : Database). get ev x.bindings) (some_same q tx h);
  lifecycle_by_event-commit =
      λ tx q ev h. ap (λ (x : Database). get ev x.bindings) (some_same tx q h);
  lifecycle_by_event-replace_lifecycle =
      λ q q' row ev h. ap (λ (x : Database). get ev x.bindings) (some_same _ q' h);
  lifecycle_by_event-replace_binding = λ q q' ev lc e h.
      ap (λ (x : Database). get e x.bindings) (some_same _ q' h) ∙ get-insert ev e lc q.bindings;
}
  where
    at : (k : String) (v : Lifecycle) (m : Map Lifecycle) → get k (insert k v m) ≡ some v
    at k v m = ground (arith, get-insert k k v m, eq_iff k k)

abbrev empty : Database
empty = record { rows = []; bindings = [] }

upsert-IsStored_example :
    (upsert tables empty settled ≡ empty)
    ⊎ IsStored tables empty settled (upsert tables empty settled)
upsert-IsStored_example = upsert-IsStored tables tables-Documented empty settled

-- A file that is parsed, deleted, and then malformed.
abbrev strict : PolicyConfig
strict = record default_config { high_velocity = record default_rule { enabled = false } }

abbrev parse_one : String → Option PolicyConfig
parse_one t = if str_eq t "strict" then some strict else none

abbrev polls : List Polled
polls = found (some 1) (some "strict") ∷ not_found ∷ found (some 2) (some "{") ∷ []

run-watch_example :
    (Watching.run parse_one (watch default_config) polls).engine
    ≡ in_force parse_one default_config none polls
run-watch_example = run-watch parse_one default_config polls
