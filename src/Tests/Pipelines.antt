-- ===== src/Tests/Pipelines.antt =====
-- The theorems on the daemon, with a JSON library that reads one event from every frame.
use athar.Prelude.{ℕ, suc, ◌≡◌, refl, true, none, some, List, [], ◌∷◌, length, leb, arith}
use athar.Governor.Recompute
use athar.Lifecycle.InMemory.{InMemoryStore, in_memory}
use athar.Lifecycle.InMemory
use athar.Audit.Chain.{Verdict}
use athar.Audit.Store.{verify_all}
use athar.Audit.Everywhere.{Everywhere}
use athar.Audit.Writer.{open_writer, with_max_records_per_segment}
use athar.Audit.History.{start}
use athar.Storage.Log.{Config, open_log}
use athar.Detection.Policy.{new_beneficiary, has, default_config}
use athar.Detection.SignalConfig.{Formats, Shape}
use athar.Detection.SignalConfig
use athar.Detection.Signals
use athar.Detection.Signals.Known.{Arrival, is_unseen, keys_of, event_keys, has-evaluate-run}
use athar.Detection.Decision.{DecisionStore}
use athar.Daemon.Drops.{no_drops}
use athar.Daemon.Wire.{Serde}
use athar.Daemon.State.{Moment, Daemon, Outside}
use athar.Daemon.Coverage.{shutdown}
use athar.Daemon.Calendar.{unix_to_ymdhms}
use athar.Daemon.Calendar.Dates.{IsTime, unix_to_ymdhms-IsTime}
use athar.Daemon.Ingest.{ingest_one}
use athar.Daemon.Ingest.Endings.{Leaves}
use athar.Daemon.Ingest.Outcomes.{ingest_one-Leaves}
use athar.Daemon.Ingest.Interleaving.{World, Act, arrives, turns, emits, run}
use athar.Daemon.Ingest.Evidence.{Backed}
use athar.Daemon.Ingest.Safety.{IsFresh, run-Backed}
use athar.Daemon.Ingest.Closing.{verify_all-shutdown}
use athar.Tests.Events.{create_event, in_unit}
use athar.Tests.Chains.{crypto, signer, signs}

abbrev pub Json : Type 0
Json = Unit {0}

abbrev formats : Formats ℕ ℕ Json
formats = record {
  field = λ j name. none;
  as_str = λ j. none;
  shape = λ j. Shape.other;
  parse_f64 = λ s. none;
  ge = λ a b. leb b a;
  display = λ n. "";
  two_digits = λ n. "";
  decimal = λ n. "";
  hundredths = λ n. n;
  thousand = 1000;
  text_lt = λ a b. true;
}

abbrev serde : Serde ℕ Json
serde = record {
  parse = λ frame. some tt;
  flag = λ j name. none;
  to_event = λ j. some create_event;
  event_bytes = λ e. some (1 ∷ 2 ∷ []);
  decision_bytes = λ d. some (3 ∷ []);
  status_bytes = λ s. some (4 ∷ []);
  gap_bytes = λ s now. some (5 ∷ []);
}

-- A store that counts its decisions.
abbrev decisions : DecisionStore ℕ ℕ
decisions = record {
  write_signal = λ d r. (d, true);
  write_decision = λ d r. (suc d, true);
  get_decision = λ d id. none;
  recent_decisions = λ d n. [];
  count_decisions = λ d. d;
  count_signals = λ d. 0;
}

abbrev pub out : Outside InMemoryStore ℕ ℕ ℕ Json
out = record {
  crypto = crypto;
  serde = serde;
  formats = formats;
  two_digits = λ n. "";
  padded = λ w n. "";
  in_unit = in_unit;
  store = in_memory;
  decisions = decisions;
}

abbrev log_config : Config
log_config = record {
  max_segment_bytes = 20;
  max_record_bytes = 10;
  quota = record { limit_bytes = 100 };
}

abbrev pub daemon : Daemon InMemoryStore ℕ ℕ ℕ
daemon = record {
  log = open_log log_config [];
  audit = start (116 ∷ []) signer 2;
  governor = Recompute.new 0;
  drops = no_drops;
  lifecycles = InMemory.new;
  signals = Signals.new (SignalConfig.default_config formats);
  policies = default_config;
  decisions = 0;
}

abbrev pub moment : Moment
moment = record {
  now_ms = 1000;
  now_us = 1000000;
  now_secs = 1;
  now_micros = 0;
  latency_us = 3;
  ulid = λ n. "01H";
  disk_ok = true;
  connection_ok = true;
}

ingest_one-Leaves_example :
    Leaves out
      (λ n. moment)
      daemon
      (9 ∷ [])
      (ingest_one out (λ n. moment) daemon (9 ∷ []))
      (ingest_one out (λ n. moment) daemon (9 ∷ [])).task
ingest_one-Leaves_example = ingest_one-Leaves out (λ n. moment) daemon (9 ∷ [])

abbrev world : World InMemoryStore ℕ ℕ ℕ Json
world = record { daemon = daemon; tasks = [] }

world-IsFresh : IsFresh out log_config (omega arith) (omega arith) world
unfolding start open_writer with_max_records_per_segment
world-IsFresh = record { log_is = refl; no_pending = refl; no_segments = refl; no_tasks = refl }

-- Two frames that take turns, and a gap in between.
abbrev acts : List (Act InMemoryStore ℕ)
acts =
    arrives (9 ∷ [])
    ∷ arrives (8 ∷ [])
    ∷ turns 0 moment
    ∷ turns 1 moment
    ∷ turns 1 moment
    ∷ turns 0 moment
    ∷ emits moment
    ∷ turns 1 moment
    ∷ turns 0 moment
    ∷ []

run-Backed_example :
    let after = (run out world acts).daemon in
    Everywhere (Backed crypto after.log.files) after.audit
run-Backed_example =
    run-Backed out log_config (omega arith) (omega arith) world acts world-IsFresh (omega arith)

verify_all-shutdown_example :
    let store = (shutdown out moment (run out world acts).daemon).0.store in
    (records : ℕ) × (verify_all crypto store
      ≡ Verdict.ok
          (record { segments_verified = length store.segments; records_verified = records }))
verify_all-shutdown_example =
    verify_all-shutdown out (116 ∷ []) signer 2 world acts moment refl signs
      (tt, (tt, (refl, (refl, (refl, (refl, (refl, (refl, (refl, tt))))))))) refl (omega arith)

abbrev seen : List (Arrival formats)
seen = record { event = create_event; now_ms = 1 } ∷ []

has-evaluate-run_example :
    has new_beneficiary
      (Signals.evaluate formats
        (Signals.Known.run formats (Signals.new (SignalConfig.default_config formats)) seen)
        create_event
        2).1
    ≡ is_unseen formats (keys_of formats seen) (event_keys formats create_event)
has-evaluate-run_example =
    has-evaluate-run formats (SignalConfig.default_config formats) seen create_event 2

unix_to_ymdhms-IsTime_example : IsTime 1_767_225_599 (unix_to_ymdhms 1_767_225_599)
unix_to_ymdhms-IsTime_example = unix_to_ymdhms-IsTime 1_767_225_599 (omega arith)
