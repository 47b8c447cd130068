-- ===== src/Cli/Showing.antt =====
-- What `decision show` says of a decision database, after any writes and after the decision of a frame.
use athar.Prelude.{
  ◌≡◌, refl, ap, ◌∙◌, String, Bool, true, Option, some, List, [], ◌∷◌, All, contains, eq_iff, arith,
  if◌then◌else◌,
}
use athar.Event.Types.{Event}
use athar.Detection.Signals
use athar.Detection.Decision.{DecisionRecord, DecisionStore}
use athar.Detection.Sqlite.{DecisionSql, get_decision, write_decision, sqlite_decisions}
use athar.Detection.Sqlite.Writing.{
  Inserts, Write, decision, ReadsBack, run, known_after, last_written, get_decision-run,
  get_decision-write_decision,
}
use athar.Daemon.Wire.{write_json_frame, decision_body}
use athar.Daemon.State.{Moment, Daemon, Outside}
use athar.Daemon.Ingest.{records_of, decision_of, write_signals, decide}
use athar.Cli.Listing.{print_one, cmd_decision_show}

module _ {D F32 Text : Type 0} (to_json : DecisionRecord F32 → Option Text)
    (store : DecisionStore D F32) (opened : String → Option D) where
  cmd_decision_show-get_decision :
      (db id : String) (rest : List String) (s : D)
      → opened db ≡ some s
      → cmd_decision_show to_json store opened (db ∷ id ∷ rest)
        ≡ print_one to_json (store.get_decision s id) (contains (db ∷ id ∷ rest) "--json")
  unfolding cmd_decision_show
  cmd_decision_show-get_decision db id rest s opens = rw (opens, cmd_decision_show) refl

module _ {Q Text F32 F64 : Type 0} (sql : DecisionSql Q Text F32 F64) (laws : Inserts sql) where
  -- `decision show` on a database that was written to, whether or not a write succeeded, prints the last
  -- decision under the id whose write said that it succeeded, or what the id had before; it exits with 1
  -- where there is neither. The insertions behave as documented, the JSON of the decisions reads back,
  -- and the database can be opened.
  pub cmd_decision_show-run :
      {Out : Type 0} (to_json : DecisionRecord F32 → Option Out) (opened : String → Option Q)
      (db id : String) (rest : List String) (q : Q) (ws : List (Write F32))
      → All (ReadsBack sql) ws
      → opened db ≡ some (run sql q ws)
      → cmd_decision_show to_json (sqlite_decisions sql) opened (db ∷ id ∷ rest)
        ≡ print_one to_json
            (last_written sql q ws id (get_decision sql q id))
            (contains (db ∷ id ∷ rest) "--json")
  unfolding sqlite_decisions
  cmd_decision_show-run to_json opened db id rest q ws backs opens =
      cmd_decision_show-get_decision to_json (sqlite_decisions sql) opened db id rest _ opens
      ∙ ap (λ o. print_one to_json o (contains (db ∷ id ∷ rest) "--json"))
          (get_decision-run sql laws q ws id backs)

  cmd_decision_show-write_decision :
      {Out : Type 0} (to_json : DecisionRecord F32 → Option Out) (opened : String → Option Q)
      (db : String) (rest : List String) (q : Q) (d : DecisionRecord F32)
      → ReadsBack sql (decision d)
      → (write_decision sql q d).1 ≡ true
      → opened db ≡ some (write_decision sql q d).0
      → cmd_decision_show to_json (sqlite_decisions sql) opened (db ∷ d.decision_id ∷ rest)
        ≡ print_one to_json (some d) (contains (db ∷ d.decision_id ∷ rest) "--json")
  unfolding sqlite_decisions known_after
  cmd_decision_show-write_decision to_json opened db rest q d back done opens =
      cmd_decision_show-get_decision to_json (sqlite_decisions sql) opened db d.decision_id rest _
        opens
      ∙ ap (λ o. print_one to_json o (contains (db ∷ d.decision_id ∷ rest) "--json"))
          (ground (
            arith,
            get_decision-write_decision sql laws q d d.decision_id back,
            done,
            eq_iff d.decision_id d.decision_id,
          ))

abbrev pub over_sqlite :
    {S Q Text F32 F64 G Json : Type 0}
    → DecisionSql Q Text F32 F64
    → Outside S Q F32 G Json
    → Outside S Q F32 G Json
over_sqlite sql base = record base { decisions = sqlite_decisions sql }

-- What the last step of a frame makes, in a daemon whose decisions go to SQLite.
module _ {S Q Text F32 F64 G Json : Type 0} (sql : DecisionSql Q Text F32 F64)
    (base : Outside S Q F32 G Json) (m : Moment) (d : Daemon S Q F32 G) (e : Event G Json)
    (lifecycle_id : Option String) where
  abbrev pub made : DecisionRecord F32
  made =
      decision_of (over_sqlite sql base) m d e lifecycle_id
        (Signals.evaluate base.formats d.signals e m.now_ms).1

  -- The database with the records of the signals.
  abbrev pub kept : Q
  kept = write_signals (over_sqlite sql base) d.decisions (
      records_of (over_sqlite sql base) m e lifecycle_id
        (Signals.evaluate base.formats d.signals e m.now_ms).1)

  -- The last step of a frame, in a daemon whose decisions go to SQLite: a connection that wants the
  -- decision gets the frame of it, and when the database has taken it, `decision show` of its id prints
  -- that decision. The insertions behave as documented, the JSON of the decision reads back, and the
  -- database that the step leaves can be opened.
  pub cmd_decision_show-decide :
      Inserts sql
      → {Out : Type 0} (to_json : DecisionRecord F32 → Option Out) (opened : String → Option Q)
        (db : String) (rest : List String) (wants : Bool)
      → ReadsBack sql (decision made)
      → (write_decision sql kept made).1 ≡ true
      → opened db ≡ some (decide (over_sqlite sql base) m d e lifecycle_id wants).daemon.decisions
      → ((decide (over_sqlite sql base) m d e lifecycle_id wants).written ≡ (
          if wants
          then write_json_frame m.connection_ok (base.serde.decision_bytes (decision_body made))
          else []))
        × (cmd_decision_show to_json (sqlite_decisions sql) opened (db ∷ made.decision_id ∷ rest)
            ≡ print_one to_json (some made) (contains (db ∷ made.decision_id ∷ rest) "--json"))
  unfolding decide write_decision sqlite_decisions
  cmd_decision_show-decide laws to_json opened db rest wants back done opens = (
    refl,
    cmd_decision_show-write_decision sql laws to_json opened db rest kept made back done opens,
  )
