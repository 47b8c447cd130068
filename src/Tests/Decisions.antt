-- ===== src/Tests/Decisions.antt =====
-- The decision store over SQLite, with a table of rows in place of the database.
use athar.Prelude.{
  ℕ, ◌≡◌, refl, sym, ap, ◌∙◌, String, none, some, List, [], ◌∷◌, str_eq, if◌then◌else◌,
}
use athar.Prelude.Maps.{Map, get, insert, get-insert}
use athar.Detection.Policy.{Action, observe, fail_open}
use athar.Detection.Decision.{DecisionRecord}
use athar.Detection.Sqlite.{DecisionSql, get_decision, inserted, write_decision, sqlite_decisions}
use athar.Detection.Sqlite.Writing.{Inserts, Write, decision, run, last_written, get_decision-run}
use athar.Lifecycle.InMemory.{InMemoryStore}
use athar.Daemon.Wire.{write_json_frame, decision_body}
use athar.Daemon.State.{Daemon, Outside}
use athar.Daemon.Ingest.{decide}
use athar.Cli.Listing.{print_one, cmd_decision_show}
use athar.Cli.Showing.{over_sqlite, made, cmd_decision_show-decide}
use athar.Tests.Events.{create_event}
use athar.Tests.Pipelines.{Json, out, daemon, moment}
use athar.Prelude.{true, contains, Option}

abbrev Rows : Type 0
Rows = Map (DecisionRecord ℕ)

-- The JSON of a decision is the decision itself; one of no tenant has none.
abbrev rows : DecisionSql Rows (DecisionRecord ℕ) ℕ ℕ
rows = record {
  to_json = λ d. if str_eq d.tenant_id "" then none else some d;
  from_json = some;
  widen = λ c. c;
  replace_signal = λ q row. some q;
  replace_decision = λ q row. some (insert row.decision_id row.body_json q);
  body_by_id = λ q id. get id q;
  recent_bodies = λ q limit. none;
  count_decision_rows = λ q. none;
  count_signal_rows = λ q. none;
}

some_same : {A : Type 0} (a b : A) → some a ≡ some b → b ≡ a
some_same a b h = cc

rows-Inserts : Inserts rows
rows-Inserts = record {
  body_by_id-replace_signal = λ q q' row id h. ap (get id) (some_same q q' h);
  body_by_id-replace_decision = λ q q' row id h.
      ap (get id) (some_same _ q' h) ∙ get-insert row.decision_id id row.body_json q;
}

abbrev decided : String → ℕ → DecisionRecord ℕ
decided tenant latency = record {
  decision_id = "dec_1";
  timestamp_ms = 5;
  tenant_id = tenant;
  subject = record { lifecycle_id = none; event_id = "e1"; operation_id = none };
  policies_evaluated = [];
  signals_used = [];
  action = Action.allow;
  reason_codes = [];
  mode = observe;
  fail_mode = fail_open;
  inputs_missing = [];
  coverage_gaps_overlapping = [];
  degradation_level = "L0";
  latency_us = latency;
  engine_versions = record { detector = "d"; policy = "p"; resolver = "r" };
  explanation = "";
}

-- The second write replaces the first one, and the third one fails.
abbrev writes : List (Write ℕ)
writes = decision (decided "tnt" 1) ∷ decision (decided "tnt" 2) ∷ decision (decided "" 3) ∷ []

get_decision-run_example :
    get_decision rows (run rows [] writes) "dec_1"
    ≡ last_written rows [] writes "dec_1" (get_decision rows [] "dec_1")
get_decision-run_example =
    get_decision-run rows rows-Inserts [] writes "dec_1"
      ((λ json h. sym h), ((λ json h. sym h), ((λ json h. cc), tt)))

-- What the store answers in the end is the second decision.
last_written_second :
    last_written rows [] writes "dec_1" (get_decision rows [] "dec_1") ≡ some (decided "tnt" 2)
unfolding last_written get_decision
last_written_second = refl

-- Every decision can be spelled.
abbrev spelled : DecisionSql Rows (DecisionRecord ℕ) ℕ ℕ
spelled = record rows { to_json = some }

spelled-Inserts : Inserts spelled
spelled-Inserts = record {
  body_by_id-replace_signal = rows-Inserts.body_by_id-replace_signal;
  body_by_id-replace_decision = rows-Inserts.body_by_id-replace_decision;
}

abbrev around : Outside InMemoryStore Rows ℕ ℕ Json
around = record {
  crypto = out.crypto;
  serde = out.serde;
  formats = out.formats;
  two_digits = out.two_digits;
  padded = out.padded;
  in_unit = out.in_unit;
  store = out.store;
  decisions = sqlite_decisions spelled;
}

abbrev deciding : Daemon InMemoryStore Rows ℕ ℕ
deciding = record {
  log = daemon.log;
  audit = daemon.audit;
  governor = daemon.governor;
  drops = daemon.drops;
  lifecycles = daemon.lifecycles;
  signals = daemon.signals;
  policies = daemon.policies;
  decisions = [];
}

abbrev first : DecisionRecord ℕ
first = made spelled around moment deciding create_event none

abbrev left : Option Rows
left =
    some
      (decide (over_sqlite spelled around) moment deciding create_event none true).daemon.decisions

cmd_decision_show-decide_example :
    ((decide (over_sqlite spelled around) moment deciding create_event none true).written
      ≡ write_json_frame moment.connection_ok (around.serde.decision_bytes (decision_body first)))
    × (cmd_decision_show some
          (sqlite_decisions spelled)
          (λ db. left)
          ("db" ∷ first.decision_id ∷ [])
        ≡ print_one some (some first) (contains ("db" ∷ first.decision_id ∷ []) "--json"))
unfolding write_decision inserted
cmd_decision_show-decide_example =
    cmd_decision_show-decide spelled around moment deciding create_event none spelled-Inserts some
      (λ db. left) "db" [] true (λ json h. sym h) refl refl
