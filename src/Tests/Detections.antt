-- ===== src/Tests/Detections.antt =====
-- The detection theorems on two signals and a tracker of two subjects.
use athar.Prelude.{ℕ, ◌≤◌, ◌≡◌, List, [], ◌∷◌, none, length}
use athar.Detection.Policy.{
  Signal, PolicyConfig, new_beneficiary, high_amount, enforce, default_rule, default_config,
  evaluate,
}
use athar.Detection.Rules.{table, first_match, evaluate-first_match}
use athar.Detection.Velocity.{VelocityConfig, new}
use athar.Detection.Capacity.{Call, observes, run, capacity, run-new_le}
use athar.Prelude.{All, true}
use athar.Detection.Targets.{TargetConfig}
use athar.Detection.Targets
use athar.Detection.Targets.Entries.{max_subjects, max_targets, Few}
use athar.Detection.Targets.Bounds.{Seen, run-new_bounds}
use athar.Detection.Targets.Bounds

abbrev config : PolicyConfig
config = record default_config {
  high_amount_new_beneficiary = record default_rule { mode = enforce };
}

abbrev signals : List (Signal ℕ)
signals =
    record { kind = high_amount; confidence = 95; value = "amount=5000"; threshold = none }
    ∷ record { kind = new_beneficiary; confidence = 85; value = "ben_1"; threshold = none }
    ∷ []

evaluate-first_match_example : evaluate config signals ≡ first_match (table config) signals
evaluate-first_match_example = evaluate-first_match config signals

abbrev tracker_config : VelocityConfig
tracker_config = record { window_ms = 10; threshold = 1; max_subjects = 2 }

abbrev calls : List Call
calls = observes "a" 1 ∷ observes "b" 2 ∷ observes "a" 3 ∷ observes "c" 20 ∷ []

run-new_le_example : length (run (new tracker_config) calls).windows ≤ capacity tracker_config
run-new_le_example = run-new_le tracker_config calls

abbrev target_config : TargetConfig
target_config = record {
  window_ms = 10;
  threshold = 1;
  max_subjects = 1;
  max_targets_per_subject = 2;
}

abbrev payments : List Seen
payments =
    record { subject = "a"; target = "x"; now_ms = 1 }
    ∷ record { subject = "a"; target = "y"; now_ms = 2 }
    ∷ record { subject = "a"; target = "z"; now_ms = 3 }
    ∷ record { subject = "b"; target = "x"; now_ms = 4 }
    ∷ []

run-new_bounds_example :
    let t = Bounds.run (λ a b. true) (Targets.new target_config) payments in
    (length t.windows ≤ max_subjects target_config)
    × All (Few (max_targets target_config)) t.windows
run-new_bounds_example = run-new_bounds (λ a b. true) target_config payments
