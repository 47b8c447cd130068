-- ===== src/Daemon/Ingest/Interleaving.antt =====
-- Frames of several connections and the background tasks of the daemon, in any order of their steps.
-- The eviction of segments is not among the tasks.
use athar.Prelude.{ℕ, zero, suc, Option, List, [], ◌∷◌, ◌++◌, Bytes}
use athar.Governor.Recompute.{State}
use athar.Detection.Policy.{PolicyConfig}
use athar.Daemon.State.{Moment, Daemon, Task, arrived, Outside}
use athar.Daemon.Coverage.{emit_coverage_gap_if_any}
use athar.Daemon.Spool.{Reading, ingest_payload}
use athar.Daemon.Ingest.{step}

-- The components, and the frames on their way.
pub record World (S D F32 F64 Json : Type 0) : Type 0 where
  pub daemon : Daemon S D F32 F64
  pub tasks : List (Task F64 Json)

-- What may happen next: a frame arrives; a frame takes a step; the watcher or the shutdown emits a
-- coverage gap; the spool collector ingests a record; the governor, the scanner or the policy reload
-- does its work.
pub data Act (S F32 : Type 0) : Type 0 where
  arrives : Bytes → Act S F32
  turns : ℕ → Moment → Act S F32
  emits : Moment → Act S F32
  spools : Reading → Option Bytes → Act S F32
  governs : State F32 → Act S F32
  projects : S → Act S F32
  reloads : PolicyConfig → Act S F32

module _ {S D F32 F64 Json : Type 0} (out : Outside S D F32 F64 Json) where
  -- The step of one of the frames; none if there are not so many.
  unfoldable pub step_at :
      Moment
      → Daemon S D F32 F64
      → ℕ
      → List (Task F64 Json)
      → Daemon S D F32 F64 × List (Task F64 Json)
  unfolding step
  step_at m d n [] = (d, [])
  step_at m d zero (t ∷ ts) = let u = step out m d t in (u.daemon, u.task ∷ ts)
  step_at m d (suc n) (t ∷ ts) = let r = step_at m d n ts in (r.0, t ∷ r.1)

  unfoldable pub spool : Reading → Option Bytes → Daemon S D F32 F64 → Daemon S D F32 F64
  unfolding ingest_payload
  spool r payload d =
      let i = ingest_payload out.crypto r (record { log = d.log; audit = d.audit }) payload in
      record d { log = i.0.log; audit = i.0.audit }

  unfoldable pub happen : World S D F32 F64 Json → Act S F32 → World S D F32 F64 Json
  unfolding step_at emit_coverage_gap_if_any spool
  happen w (arrives frame) = record w { tasks = w.tasks ++ arrived frame ∷ [] }
  happen w (turns n m) =
      let r = step_at m w.daemon n w.tasks in record { daemon = r.0; tasks = r.1 }
  happen w (emits m) = record w { daemon = emit_coverage_gap_if_any out m w.daemon }
  happen w (spools r payload) = record w { daemon = spool r payload w.daemon }
  happen w (governs g) = record w { daemon = record w.daemon { governor = g } }
  happen w (projects s) = record w { daemon = record w.daemon { lifecycles = s } }
  happen w (reloads config) = record w { daemon = record w.daemon { policies = config } }

  unfoldable pub run : World S D F32 F64 Json → List (Act S F32) → World S D F32 F64 Json
  unfolding happen
  run w [] = w
  run w (act ∷ acts) = run (happen w act) acts
