-- ===== src/Governor/Heartbeats.antt =====
-- When the dead-man's switch trips for want of a heartbeat.
use athar.Prelude.{ℕ, ◌≤◌, Option, none, some, List, [], ◌∷◌}
use athar.Governor.Recompute.{Config, BudgetObservation}
use athar.Governor.Invariant.{Call, reports_budget, heartbeats}

module _ {F32 : Type 0} where
  -- The last heartbeat of a history, and its last report of the budget.
  abbrev pub last_heard : Option ℕ → List (Call F32) → Option ℕ
  last_heard h [] = h
  last_heard h (heartbeats now ∷ calls) = last_heard (some now) calls
  last_heard h (_ ∷ calls) = last_heard h calls

  abbrev pub last_reported :
      Option (BudgetObservation F32) → List (Call F32) → Option (BudgetObservation F32)
  last_reported b [] = b
  last_reported b (reports_budget o ∷ calls) = last_reported (some o) calls
  last_reported b (_ ∷ calls) = last_reported b calls

module _ {F32 : Type 0} (c : Config F32) where
  abbrev pub WithinBudget : Option (BudgetObservation F32) → Type 0
  WithinBudget none = Unit {0}
  WithinBudget (some b) = b.p99_latency_us ≤ c.p99_latency_budget_us
