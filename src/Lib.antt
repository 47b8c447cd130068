-- ===== src/Lib.antt =====
-- Athar, the daemon's core: what its parts do, and what is proved of them.
--
-- The daemon (daemon/crates) receives canonical events, validates them, binds each to a business
-- lifecycle, stores it in a segmented log under a quota, evaluates detection rules, sheds work under
-- pressure and commits what happened to a signed hash chain.
--
-- * Event (daemon/crates/athar-event/src/lib.rs): `Event` with all its blocks, `Event::validate`.
--   Floats and JSON values are type parameters; the range test on a confidence is a parameter.
-- * Lifecycle (daemon/crates/athar-lifecycle/src): `types.rs` is Types; the trait of `store.rs` is
--   Store, a record of operations with their laws; its in-memory implementation is InMemory;
--   `correlate` is Correlate, `transition_for` and `classify_late_event` are Transition,
--   `LifecycleEngine::apply` is Engine, over any store; `StalenessScanner::sweep` is Scanner; History
--   runs both on the in-memory store. A call is one step, as the mutex makes it.
-- * Governor (daemon/crates/athar-governor/src/lib.rs): Level is the ladder and the buckets,
--   Recompute the state with every operation. An instant is a number, the difference of two stops at
--   0 as `saturating_duration_since` does, and the comparison of floats is a parameter. The two watch
--   channels are the last values sent.
-- * Audit (daemon/crates/athar-audit/src/lib.rs): Record has the records and their canonical bytes,
--   Chain the writer and the verification, Hex the codec. BLAKE3 and the Ed25519 verification are
--   parameters; that signatures verify is a named hypothesis. Store is `SegmentStore` of
--   persistence.rs, a list of segments; Writer is `AuditChainWriter` of writer.rs, where the clock and
--   whether the disk takes a write are arguments; History runs a writer, Restarts
--   and Lifetimes several in turn on one directory.
-- * Storage (daemon/crates/athar-storage/src): Quota is quota.rs; Framing and Log are segment_log.rs,
--   the directory a list of files in the order of their ids. The reader of a file runs on fuel, one
--   unit more than the bytes; a round takes at least four bytes.
-- * Detection (daemon/crates/athar-detection/src): Policy is `PolicyEngine::evaluate` of policy.rs,
--   Loading the configuration of config.rs; Velocity and Targets are the trackers of trackers.rs, and
--   Subjects what they share; SignalConfig and Signals are the signal engine of signal.rs, whose JSON
--   access and number formats are parameters; Decision has decision.rs, with `DecisionStore` of
--   store.rs as an interface, and Sqlite its implementation over the SQL statements, which are
--   parameters; their documented behaviour is a named hypothesis.
-- * Lifecycle.Sqlite is `SqliteLifecycleStore` of sqlite_store.rs over its SQL statements, which are
--   parameters; their documented behaviour is a named hypothesis.
-- * Daemon (daemon/crates/athar-daemon/src): Server is the start-up, the stream of a connection and the
--   scanner round of ingest.rs. `ingest_one` is Ingest: the components are State, the responses Wire,
--   and a frame is a task that takes one step between two locks, so that Ingest.Interleaving can let
--   several frames and the background tasks take turns. Coverage has the coverage gaps, the pressure
--   watcher and the shutdown, Calendar the clock, Drops the counters. Eviction is `run_once` of
--   eviction.rs; its loop runs on the evictions that are left of `max_evictions_per_tick`, which is its
--   bound in the source too. Spool is shim_spool.rs, Reload policy_reload.rs, HostMetrics
--   host_metrics.rs, Config config.rs. What the code reads from outside at a step, its clocks, fresh
--   ids, and whether the disk and the connection take a write, is the argument `Moment`.
-- * Cli (daemon/crates/athar-cli/src/main.rs): Client is the status query, Commands the dispatch and the
--   exit codes, Listing the commands that list and show, whose lines are the values that they are made
--   from.
--
-- Prelude has the tests on numbers, 64-bit words, byte strings, lists and association lists that the
-- parts share. 64-bit sums wrap around, as they do in a release build. The other loops run over a
-- list and need no fuel.
--
-- Not modelled: sockets, timers and files beyond the results that their calls give, the schema of the
-- SQLite tables, the key file, the texts that the command line prints, serde's formats, float arithmetic, logging. The steps of the projection of an event (lifecycles, signals,
-- decision) run without another task between the locks inside them.
pub mod Prelude
pub mod Audit
pub mod Cli
pub mod Daemon
pub mod Detection
pub mod Event
pub mod Governor
pub mod Lifecycle
pub mod Storage
pub mod Tests
