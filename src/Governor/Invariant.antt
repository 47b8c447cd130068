-- ===== src/Governor/Invariant.antt =====
-- What holds of the governor after any sequence of reports, heartbeats and ticks.
use athar.Prelude.{ℕ, ◌≤◌, Bool, List, [], ◌∷◌, ◌≡◌, refl, sym, ◌∙◌, arith}
use athar.Governor.Level.{PressureLevel, l4_safe_mode, rank}
use athar.Governor.Recompute.{
  Config, HostMetrics, BudgetObservation, State, DeadmanSignal, ok, tripped, new, intrinsic_level,
  recompute, report_host, report_budget, shim_heartbeat, tick, target_level,
}
use athar.Governor.Laws.{switch_after, recompute-parts, recompute_bounds}

-- A tripped switch forces safe mode.
abbrev pub IsSafe : DeadmanSignal → PressureLevel → Type 0
IsSafe ok l = Unit {0}
IsSafe (tripped since reason) l = l ≡ l4_safe_mode

-- Subscribers see the level and the signal that the governor holds, and a tripped switch means L4.
pub record Inv {F32 : Type 0} (s : State F32) : Type 0 where
  pub level_published : s.published_level ≡ s.current
  pub deadman_published : s.published_deadman ≡ s.deadman
  pub safe : IsSafe s.deadman s.current

pub data Call (F32 : Type 0) : Type 0 where
  reports_host : HostMetrics F32 → Call F32
  reports_budget : BudgetObservation F32 → Call F32
  heartbeats ticks : ℕ → Call F32

module _ {F32 : Type 0} (lt : F32 → F32 → Bool) (c : Config F32) where
  unfoldable pub step : State F32 → Call F32 → State F32
  step s (reports_host m) = report_host lt c s m
  step s (reports_budget o) = report_budget lt c s o
  step s (heartbeats now) = shim_heartbeat lt c s now
  step s (ticks now) = tick lt c s now

  unfoldable pub run : State F32 → List (Call F32) → State F32
  unfolding step
  run s [] = s
  run s (call ∷ calls) = run (step s call) calls

  target-IsSafe :
      (d : DeadmanSignal) (l now_level : PressureLevel)
      → rank (target_level d l) ≤ rank now_level
      → IsSafe d now_level
  unfolding rank
  target-IsSafe ok l now_level h = tt
  target-IsSafe (tripped since reason) l now_level h = ground arith

  pub recompute-Inv :
      (s : State F32) (now : ℕ)
      → s.published_level ≡ s.current
      → s.published_deadman ≡ s.deadman
      → Inv (recompute lt c s now)
  recompute-Inv s now level deadman =
      let parts = recompute-parts lt c s now in
      record {
        level_published = parts.4 level;
        deadman_published = parts.3 deadman ∙ sym parts.0;
        safe = rw (parts.0) (
            target-IsSafe (switch_after lt c s now) (intrinsic_level lt c s)
              (recompute lt c s now).current (recompute_bounds lt c s now).0);
      }

  step-Inv : (s : State F32) (call : Call F32) → Inv s → Inv (step s call)
  unfolding step report_host report_budget shim_heartbeat tick
  step-Inv s (reports_host m) v = recompute-Inv _ m.taken_at v.level_published v.deadman_published
  step-Inv s (reports_budget o) v = recompute-Inv _ o.taken_at v.level_published v.deadman_published
  step-Inv s (heartbeats now) v = recompute-Inv _ now v.level_published v.deadman_published
  step-Inv s (ticks now) v = recompute-Inv s now v.level_published v.deadman_published

  pub run-Inv : (s : State F32) (calls : List (Call F32)) → Inv s → Inv (run s calls)
  unfolding run
  run-Inv s [] v = v
  run-Inv s (call ∷ calls) v = run-Inv (step s call) calls (step-Inv s call v)

  -- After any sequence of reports, heartbeats and ticks of a new governor, the published level and
  -- signal are the ones that it holds, and while the dead-man's switch is tripped it is in safe mode.
  pub run-new-Inv : (start : ℕ) (calls : List (Call F32)) → Inv (run (new start) calls)
  unfolding new
  run-new-Inv start calls =
      run-Inv (new start) calls
        (record { level_published = refl; deadman_published = refl; safe = tt })
