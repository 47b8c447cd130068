-- ===== src/Tests/Governors.antt =====
-- The governor's theorems on a budget of 100 microseconds. A 32-bit float is a number here.
use athar.Prelude.{ℕ, ◌-◌, ◌≤◌, [], ◌∷◌, some, ◌≡◌, ◌⊎◌, refl, ltb, arith}
use athar.Governor.Level.{l2_defer, l4_safe_mode, rank, max_level, latency_bucket}
use athar.Governor.Recompute.{
  Config, BudgetObservation, State, ok, tripped, budget_breach, no_shim_confirmation, new,
  recompute, report_budget, shim_heartbeat, tick, evaluate_deadman, breach_check, heartbeat_check,
  recovery_check, intrinsic_level, host_level, with_budget_level, apply_hysteresis, set_deadman,
  set_level, DeadmanSignal-discrete,
}
use athar.Governor.Laws.{target, recompute_bounds}
use athar.Governor.Invariant.{Inv, Call, heartbeats, reports_budget, ticks, run, run-new-Inv}
use athar.Governor.Deadman.{tick-run-report_budget}
use athar.Governor.Recovery.{IsRoomy, IsFast, shim_heartbeat_clears_iff}
use athar.Prelude.{◌↔◌, List}

abbrev config : Config ℕ
config = record {
  cpu_headroom_l1_pct = 20;
  cpu_headroom_l2_pct = 10;
  memory_free_l1_pct = 20;
  memory_free_l2_pct = 10;
  disk_free_l1_pct = 20;
  disk_free_l2_pct = 10;
  p99_latency_budget_us = 100;
  p99_latency_l2_us = 200;
  p99_latency_l3_us = 300;
  good_news_window = 30;
  sustained_breach_window = 10;
  shim_heartbeat_timeout = 15;
}

abbrev slow : BudgetObservation ℕ
slow = record { p50_latency_us = 50; p99_latency_us = 250; throughput_delta_pct = 0; taken_at = 5 }

abbrev fast : BudgetObservation ℕ
fast = record { p50_latency_us = 5; p99_latency_us = 50; throughput_delta_pct = 0; taken_at = 7 }

abbrev busy : State ℕ
busy = record (new 0) { budget = some slow }

run-new-Inv_example : Inv (run ltb config (new 0) (reports_budget slow ∷ ticks 20 ∷ []))
run-new-Inv_example = run-new-Inv ltb config 0 (reports_budget slow ∷ ticks 20 ∷ [])

recompute_bounds_example :
    let s' = recompute ltb config busy 5 in
    (rank (target ltb config busy 5) ≤ rank s'.current)
    × ((rank busy.current ≤ rank s'.current) ⊎ (30 ≤ 5 - busy.at_current_since))
    × ((rank s'.current ≤ rank busy.current) ⊎ (s'.current ≡ target ltb config busy 5))
recompute_bounds_example = recompute_bounds ltb config busy 5

level_busy : (recompute ltb config busy 5).current ≡ l2_defer
unfolding new recompute evaluate_deadman breach_check heartbeat_check recovery_check intrinsic_level
    host_level with_budget_level apply_hysteresis set_deadman set_level rank max_level
    latency_bucket DeadmanSignal-discrete
level_busy = refl

-- A second report over budget, a heartbeat, and a tick come before the end of the window.
abbrev slower : BudgetObservation ℕ
slower = record {
  p50_latency_us = 50;
  p99_latency_us = 290;
  throughput_delta_pct = 0;
  taken_at = 9;
}

abbrev meanwhile : List (Call ℕ)
meanwhile = reports_budget slower ∷ heartbeats 10 ∷ ticks 12 ∷ []

tick-run-report_budget_example :
    let s' =
      tick ltb config (run ltb config (report_budget ltb config (new 0) slow) meanwhile) 16 in
    (s'.published_deadman ≡ tripped 5 budget_breach) × (s'.published_level ≡ l4_safe_mode)
unfolding new run
tick-run-report_budget_example =
    tick-run-report_budget ltb config (new 0) slow meanwhile 16 (run-new-Inv ltb config 0 []) refl
      (omega arith) (omega arith, (tt, (tt, tt))) (omega arith)

abbrev history : List (Call ℕ)
history = heartbeats 1 ∷ reports_budget fast ∷ []

-- The switch has tripped for a missing confirmation, and the budget is met.
abbrev silent : State ℕ
silent = record (new 0) {
  last_heartbeat = some 1;
  budget = some fast;
  current = l4_safe_mode;
  deadman = tripped 1 no_shim_confirmation;
  published_level = l4_safe_mode;
  published_deadman = tripped 1 no_shim_confirmation;
}

shim_heartbeat_clears_iff_example :
    ((shim_heartbeat ltb config silent 40).published_deadman ≡ ok)
    ↔ (IsRoomy ltb config silent.host × IsFast config silent.budget × (30 ≤ 40 - 1))
unfolding new
shim_heartbeat_clears_iff_example =
    shim_heartbeat_clears_iff ltb config silent 1 40 no_shim_confirmation
      (record { level_published = refl; deadman_published = refl; safe = refl }) refl (omega arith)
