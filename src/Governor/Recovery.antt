-- ===== src/Governor/Recovery.antt =====
-- When a tripped dead-man's switch lets go.
use athar.Prelude.{
  ℕ, ◌-◌, ◌≤◌, ◌<◌, Bool, false, Option, none, some, ◌≡◌, ◌↔◌, refl, ◌∙◌, sym, arith,
}
use athar.Governor.Level.{PressureLevel, l0_normal, rank, max_level, bucket3, latency_bucket}
use athar.Governor.Recompute.{
  Config, HostMetrics, BudgetObservation, State, DeadmanReason, ok, tripped, breach_check,
  heartbeat_check, recovery_check, evaluate_deadman, host_level, with_budget_level, intrinsic_level,
  shim_heartbeat,
}
use athar.Governor.Laws.{recompute-parts}
use athar.Governor.Invariant.{Inv}

module _ {F32 : Type 0} (c : Config F32) where
  -- The latency is within the budget, and below the other thresholds.
  abbrev pub IsFast : Option (BudgetObservation F32) → Type 0
  IsFast none = Unit {0}
  IsFast (some b) =
      (b.p99_latency_us ≤ c.p99_latency_budget_us)
      × (b.p99_latency_us < c.p99_latency_l2_us)
      × (b.p99_latency_us < c.p99_latency_l3_us)

module _ {F32 : Type 0} (lt : F32 → F32 → Bool) (c : Config F32) where
  -- No headroom is below a threshold.
  abbrev pub IsRoomy : Option (HostMetrics F32) → Type 0
  IsRoomy none = Unit {0}
  IsRoomy (some m) =
      (lt m.cpu_headroom_pct c.cpu_headroom_l1_pct ≡ false)
      × (lt m.cpu_headroom_pct c.cpu_headroom_l2_pct ≡ false)
      × (lt m.memory_free_pct c.memory_free_l1_pct ≡ false)
      × (lt m.memory_free_pct c.memory_free_l2_pct ≡ false)
      × (lt m.disk_free_pct c.disk_free_l1_pct ≡ false)
      × (lt m.disk_free_pct c.disk_free_l2_pct ≡ false)

  host_level_iff : (m : Option (HostMetrics F32)) → (host_level lt c m ≡ l0_normal) ↔ IsRoomy m
  unfolding host_level max_level bucket3 rank
  host_level_iff none = (λ h. tt, λ h. refl)
  host_level_iff (some m) = (λ h. ground (arith, h), λ h. ground (arith, h))

  with_budget_level_iff :
      (l : PressureLevel) (b : Option (BudgetObservation F32))
      → (with_budget_level lt c l b ≡ l0_normal) ↔ ((l ≡ l0_normal) × IsFast c b)
  unfolding with_budget_level max_level latency_bucket rank
  with_budget_level_iff l none = (λ h. (h, tt), λ h. h.0)
  with_budget_level_iff l (some b) = (λ h. ground (arith, h), λ h. ground (arith, h))

  intrinsic_level_iff :
      (s : State F32) → (intrinsic_level lt c s ≡ l0_normal) ↔ (IsRoomy s.host × IsFast c s.budget)
  unfolding intrinsic_level
  intrinsic_level_iff s =
      let budget = with_budget_level_iff (host_level lt c s.host) s.budget in
      let host = host_level_iff s.host in
      (λ h. let parts = budget.0 h in (host.0 parts.0, parts.1), λ h. budget.1 (host.1 h.0, h.1))

  released :
      (s : State F32) (since now : ℕ) (reason : DeadmanReason) (l : PressureLevel)
      → s.deadman ≡ tripped since reason
      → (evaluate_deadman c s now l).1 ≡ ok
      → (l ≡ l0_normal) × (c.good_news_window ≤ now - since)
  unfolding evaluate_deadman breach_check heartbeat_check recovery_check rank
  released s since now reason l trip h = ground (arith, trip, h)

  releases :
      (s : State F32) (since now : ℕ) (reason : DeadmanReason) (l : PressureLevel)
      → s.deadman ≡ tripped since reason
      → s.last_heartbeat ≡ some now
      → 0 < c.shim_heartbeat_timeout
      → IsFast c s.budget
      → l ≡ l0_normal
      → c.good_news_window ≤ now - since
      → (evaluate_deadman c s now l).1 ≡ ok
  unfolding evaluate_deadman breach_check heartbeat_check recovery_check rank
  releases s since now reason l trip heard timeout fast calm waited =
      ground (arith, trip, heard, fast, calm)

  -- A heartbeat lets go of a tripped switch, whatever it tripped for, exactly when the inputs are good,
  -- with every headroom and the latency on the good side of the thresholds, and the good-news window has
  -- passed since the instant that the trip is dated to. The timeout is not zero.
  pub shim_heartbeat_clears_iff :
      (s : State F32) (since now : ℕ) (reason : DeadmanReason)
      → Inv s
      → s.published_deadman ≡ tripped since reason
      → 0 < c.shim_heartbeat_timeout
      → ((shim_heartbeat lt c s now).published_deadman ≡ ok)
        ↔ (IsRoomy s.host × IsFast c s.budget × (c.good_news_window ≤ now - since))
  unfolding shim_heartbeat
  shim_heartbeat_clears_iff s since now reason v trip timeout =
      let s' : State F32 = record s { last_heartbeat = some now } in
      let shown = (recompute-parts lt c s' now).3 v.deadman_published in
      let held = sym v.deadman_published ∙ trip in
      let good = intrinsic_level_iff s' in
      (
        λ h.
            let parts =
              released s' since now reason (intrinsic_level lt c s') held (sym shown ∙ h) in
            let inputs = good.0 parts.0 in (inputs.0, inputs.1, parts.1),
        λ h.
            shown
            ∙ releases s' since now reason (intrinsic_level lt c s') held refl timeout h.1
                (good.1 (h.0, h.1)) h.2,
      )
