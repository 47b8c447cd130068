-- ===== src/Tests/Evictions.antt =====
-- Reopening and eviction on a directory with an open segment. A float is a number of percent here.
use athar.Prelude.{ℕ, ◌*◌, ◌/◌, ◌≡◌, ◌⊎◌, Bool, true, false, List, [], ◌∷◌, ltb, arith}
use athar.Storage.Log.{SegmentFile, closed, active, Config, open_log}
use athar.Storage.Reopen.{IsRecovered, open_log-IsRecovered}
use athar.Daemon.Eviction.{EvictionConfig, fill_pct, run_once}
use athar.Daemon.Driver.{Achieved, run_once-Achieved}

abbrev config : Config
config = record {
  max_segment_bytes = 20;
  max_record_bytes = 10;
  quota = record { limit_bytes = 10 };
}

abbrev files : List SegmentFile
files =
    record { id = 0; state = closed; contents = 0 ∷ 0 ∷ 0 ∷ 1 ∷ 9 ∷ [] }
    ∷ record { id = 1; state = active; contents = 0 ∷ 0 ∷ 0 ∷ 2 ∷ 8 ∷ [] }
    ∷ []

open_log-IsRecovered_example : IsRecovered files (open_log config files)
open_log-IsRecovered_example =
    open_log-IsRecovered config files (omega arith) (omega arith, (omega arith, tt))

abbrev driver : EvictionConfig ℕ
driver = record {
  high_water_pct = 85;
  low_water_pct = 70;
  interval = 30;
  max_evictions_per_tick = 32;
}

abbrev percent : ℕ → ℕ → ℕ
percent total limit = total * 100 / limit

-- The disk refuses nothing.
abbrev works : ℕ → Bool
works n = true

run_once-Achieved_example :
    ((ltb (fill_pct 100 percent (open_log config files)) 85 ≡ true)
      × ((run_once ltb 100 percent driver works (open_log config files)).0 ≡ open_log config files)
      × ((run_once ltb 100 percent driver works (open_log config files)).1.evicted ≡ 0))
    ⊎ ((ltb (fill_pct 100 percent (open_log config files)) 85 ≡ false)
        × Achieved ltb 100 percent driver works 32 0
            (open_log config files)
            (run_once ltb 100 percent driver works (open_log config files)))
run_once-Achieved_example = run_once-Achieved ltb 100 percent driver works (open_log config files)
