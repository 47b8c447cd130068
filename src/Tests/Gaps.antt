-- ===== src/Tests/Gaps.antt =====
-- Two drops, a summary, a drop and a summary with nothing after it.
use athar.Prelude.{◌≡◌, List, [], ◌∷◌, arith}
use athar.Daemon.Drops.{no_drops}
use athar.Daemon.Gaps.{Call, drops, takes, view, run, run_drops, run-no_drops}

abbrev calls : List Call
calls =
    drops (record { size = 10; at_ms = 5 })
    ∷ drops (record { size = 20; at_ms = 6 })
    ∷ takes
    ∷ drops (record { size = 7; at_ms = 9 })
    ∷ takes
    ∷ takes
    ∷ []

run-no_drops_example : run no_drops calls ≡ (view (run_drops [] calls).0, (run_drops [] calls).1)
run-no_drops_example = run-no_drops calls (omega arith) (omega arith)
