-- ===== src/Governor/Recompute.antt =====
-- The state of the governor and `recompute` with its parts
-- (daemon/crates/athar-governor/src/lib.rs). The two watch channels are the fields
-- `published_level` and `published_deadman`.
use athar.Prelude.{
  ℕ, ◌*◌, ◌-◌, Bool, Option, none, some, ltb, leb, ◌==◌, ◌&&◌, if◌then◌else◌, unwrap_or,
}
use athar.Governor.Level.{
  PressureLevel, l0_normal, l4_safe_mode, rank, max_level, bucket3, latency_bucket,
}
use mathlib.Core.Logic.{ite}
use native.Mathlib.Decide.{ℕ_discrete}

pub record HostMetrics (F32 : Type 0) : Type 0 where
  pub cpu_headroom_pct : F32
  pub memory_free_pct : F32
  pub disk_free_pct : F32
  pub taken_at : ℕ

pub record BudgetObservation (F32 : Type 0) : Type 0 where
  pub p50_latency_us : ℕ
  pub p99_latency_us : ℕ
  pub throughput_delta_pct : F32
  pub taken_at : ℕ

pub data DeadmanReason : Type 0 where
  budget_breach self_check_failure no_shim_confirmation : DeadmanReason

pub data DeadmanSignal : Type 0 where
  ok : DeadmanSignal
  tripped : ℕ → DeadmanReason → DeadmanSignal

-- `==` on signals.
unfoldable pub DeadmanSignal-discrete : Discrete DeadmanSignal
DeadmanSignal-discrete = hlevel ℕ_discrete

pub record Config (F32 : Type 0) : Type 0 where
  pub cpu_headroom_l1_pct : F32
  pub cpu_headroom_l2_pct : F32
  pub memory_free_l1_pct : F32
  pub memory_free_l2_pct : F32
  pub disk_free_l1_pct : F32
  pub disk_free_l2_pct : F32
  pub p99_latency_budget_us : ℕ
  pub p99_latency_l2_us : ℕ
  pub p99_latency_l3_us : ℕ
  pub good_news_window : ℕ
  pub sustained_breach_window : ℕ
  pub shim_heartbeat_timeout : ℕ

-- `Config::default()`, with the float literals; an instant counts microseconds.
abbrev pub default_config : {F32 : Type 0} → F32 → F32 → F32 → Config F32
default_config pct_10 pct_15 pct_20 = record {
  cpu_headroom_l1_pct = pct_20;
  cpu_headroom_l2_pct = pct_10;
  memory_free_l1_pct = pct_15;
  memory_free_l2_pct = pct_10;
  disk_free_l1_pct = pct_15;
  disk_free_l2_pct = pct_10;
  p99_latency_budget_us = 1000;
  p99_latency_l2_us = 2000;
  p99_latency_l3_us = 5000;
  good_news_window = 30 * 1_000_000;
  sustained_breach_window = 10 * 1_000_000;
  shim_heartbeat_timeout = 15 * 1_000_000;
}

pub record State (F32 : Type 0) : Type 0 where
  pub host : Option (HostMetrics F32)
  pub budget : Option (BudgetObservation F32)
  pub last_heartbeat : Option ℕ
  pub breach_since : Option ℕ
  pub at_current_since : ℕ
  pub current : PressureLevel
  pub deadman : DeadmanSignal
  pub published_level : PressureLevel
  pub published_deadman : DeadmanSignal

-- `Governor::new` at the instant `start`.
unfoldable pub new : {F32 : Type 0} → ℕ → State F32
new start = record {
  host = none;
  budget = none;
  last_heartbeat = none;
  breach_since = none;
  at_current_since = start;
  current = l0_normal;
  deadman = ok;
  published_level = l0_normal;
  published_deadman = ok;
}

module _ {F32 : Type 0} (lt : F32 → F32 → Bool) (c : Config F32) where
  unfoldable pub host_level : Option (HostMetrics F32) → PressureLevel
  unfolding max_level bucket3
  host_level none = l0_normal
  host_level (some h) =
      max_level
        (max_level
          (max_level l0_normal
            (bucket3 lt h.cpu_headroom_pct c.cpu_headroom_l1_pct c.cpu_headroom_l2_pct))
          (bucket3 lt h.memory_free_pct c.memory_free_l1_pct c.memory_free_l2_pct))
        (bucket3 lt h.disk_free_pct c.disk_free_l1_pct c.disk_free_l2_pct)

  unfoldable pub with_budget_level : PressureLevel → Option (BudgetObservation F32) → PressureLevel
  unfolding max_level latency_bucket
  with_budget_level worst none = worst
  with_budget_level worst (some b) = max_level worst (
      latency_bucket b.p99_latency_us c.p99_latency_budget_us c.p99_latency_l2_us
        c.p99_latency_l3_us)

  unfoldable pub intrinsic_level : State F32 → PressureLevel
  unfolding host_level with_budget_level
  intrinsic_level s = with_budget_level (host_level s.host) s.budget

module _ {F32 : Type 0} (c : Config F32) where
  -- The first block of `evaluate_deadman`: the new `breach_since`, and the signal if it returns.
  unfoldable pub breach_check :
      Option (BudgetObservation F32) → Option ℕ → ℕ → Option ℕ × Option DeadmanSignal
  breach_check none since now = (since, none)
  breach_check (some b) since now =
      let start = unwrap_or since b.taken_at in
      if ltb c.p99_latency_budget_us b.p99_latency_us
      then (
        some start,
        (if leb c.sustained_breach_window (now - start)
            then some (tripped start budget_breach)
            else none),
      )
      else (none, none)

  -- The second block: missing heartbeats.
  unfoldable pub heartbeat_check : Option ℕ → ℕ → Option DeadmanSignal
  heartbeat_check none now = none
  heartbeat_check (some last) now =
      if leb c.shim_heartbeat_timeout (now - last)
      then some (tripped last no_shim_confirmation)
      else none

  -- The third block: a tripped switch stays tripped until it has recovered.
  unfoldable pub recovery_check : DeadmanSignal → ℕ → PressureLevel → DeadmanSignal
  recovery_check ok now intrinsic = ok
  recovery_check (tripped since reason) now intrinsic =
      if rank intrinsic == rank l0_normal && leb c.good_news_window (now - since)
      then ok
      else tripped since reason

  unfoldable pub evaluate_deadman : State F32 → ℕ → PressureLevel → Option ℕ × DeadmanSignal
  unfolding breach_check heartbeat_check recovery_check rank
  evaluate_deadman s now intrinsic =
      let (since, breached) = breach_check s.budget s.breach_since now in
      (
        since,
        unwrap_or breached (
            unwrap_or (heartbeat_check s.last_heartbeat now)
              (recovery_check s.deadman now intrinsic)),
      )

  unfoldable pub apply_hysteresis : State F32 → PressureLevel → ℕ → PressureLevel
  unfolding rank
  apply_hysteresis s target now =
      if leb (rank s.current) (rank target)
      then target
      else if leb c.good_news_window (now - s.at_current_since)
      then target
      else s.current

-- The dead-man's switch overrides the level.
abbrev pub target_level : DeadmanSignal → PressureLevel → PressureLevel
target_level ok intrinsic = intrinsic
target_level (tripped since reason) intrinsic = l4_safe_mode

module _ {F32 : Type 0} where
  -- Step 2 of `recompute`: remember and publish a signal that differs.
  unfoldable pub set_deadman : State F32 → DeadmanSignal → State F32
  unfolding DeadmanSignal-discrete ℕ_discrete
  set_deadman s deadman =
      ite (DeadmanSignal-discrete deadman s.deadman) s
        (record s { deadman = deadman; published_deadman = deadman })

  -- The end of step 3: remember and publish a level that differs.
  unfoldable pub set_level : State F32 → PressureLevel → ℕ → State F32
  unfolding rank
  set_level s level now =
      if rank level == rank s.current
      then s
      else record s { current = level; at_current_since = now; published_level = level }

module _ {F32 : Type 0} (lt : F32 → F32 → Bool) (c : Config F32) where
  unfoldable pub recompute : State F32 → ℕ → State F32
  recompute s now =
      let intrinsic = intrinsic_level lt c s in
      let (since, deadman) = evaluate_deadman c s now intrinsic in
      let s' = set_deadman (record s { breach_since = since }) deadman in
      set_level s' (apply_hysteresis c s' (target_level deadman intrinsic) now) now

  unfoldable pub report_host : State F32 → HostMetrics F32 → State F32
  unfolding recompute
  report_host s m = recompute (record s { host = some m }) m.taken_at

  unfoldable pub report_budget : State F32 → BudgetObservation F32 → State F32
  unfolding recompute
  report_budget s o = recompute (record s { budget = some o }) o.taken_at

  unfoldable pub shim_heartbeat : State F32 → ℕ → State F32
  unfolding recompute
  shim_heartbeat s now = recompute (record s { last_heartbeat = some now }) now

  unfoldable pub tick : State F32 → ℕ → State F32
  unfolding recompute
  tick s now = recompute s now

module _ {F32 : Type 0} where
  abbrev pub current_level : State F32 → PressureLevel
  current_level s = s.published_level

  abbrev pub current_deadman : State F32 → DeadmanSignal
  current_deadman s = s.published_deadman
