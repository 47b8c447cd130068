-- ===== src/Governor/Deadman.antt =====
-- When the dead-man's switch trips for a sustained breach of the latency budget.
use athar.Prelude.{
  ℕ, ◌-◌, ◌≤◌, ◌<◌, Bool, none, some, ◌≡◌, refl, ap, ◌∙◌, arith, List, [], ◌∷◌, All, unwrap_or,
}
use athar.Governor.Level.{PressureLevel, l4_safe_mode}
use athar.Governor.Recompute.{
  Config, BudgetObservation, State, DeadmanSignal, ok, tripped, budget_breach, breach_check,
  evaluate_deadman, recompute, report_host, report_budget, shim_heartbeat, tick, set_deadman,
  set_level,
}
use athar.Governor.Laws.{switch_after, recompute-parts}
use athar.Governor.Invariant.{
  Inv, IsSafe, recompute-Inv, Call, reports_host, reports_budget, heartbeats, ticks, step, run,
  run-Inv,
}

module _ {F32 : Type 0} (c : Config F32) where
  -- No better report.
  abbrev pub NoRelief : Call F32 → Type 0
  NoRelief (reports_budget o) = c.p99_latency_budget_us < o.p99_latency_us
  NoRelief _ = Unit {0}

module _ {F32 : Type 0} (lt : F32 → F32 → Bool) (c : Config F32) where
  -- The inputs and the start of a breach after a call.
  recompute_inputs :
      (s : State F32) (now : ℕ)
      → ((recompute lt c s now).budget ≡ s.budget)
        × ((recompute lt c s now).breach_since ≡ (breach_check c s.budget s.breach_since now).0)
  unfolding recompute set_deadman set_level evaluate_deadman
  recompute_inputs s now = ground arith

  -- A budget breach that began at `start` and lasts trips the switch.
  breach_trips :
      (s : State F32) (b : BudgetObservation F32) (start now : ℕ)
      → s.budget ≡ some b
      → s.breach_since ≡ some start
      → c.p99_latency_budget_us < b.p99_latency_us
      → c.sustained_breach_window ≤ now - start
      → switch_after lt c s now ≡ tripped start budget_breach
  unfolding evaluate_deadman breach_check
  breach_trips s b start now budget since over lasted = ground arith

  -- The budget is breached since `start`.
  record Breached (start : ℕ) (s : State F32) : Type 0 where
    observation : BudgetObservation F32
    latest : s.budget ≡ some observation
    over : c.p99_latency_budget_us < observation.p99_latency_us
    since : s.breach_since ≡ some start

  recompute-Breached :
      (start : ℕ) (s : State F32) (b : BudgetObservation F32) (now : ℕ)
      → s.budget ≡ some b
      → c.p99_latency_budget_us < b.p99_latency_us
      → unwrap_or s.breach_since b.taken_at ≡ start
      → Breached start (recompute lt c s now)
  unfolding breach_check
  recompute-Breached start s b now budget over began =
      let inputs = recompute_inputs s now in
      record {
        observation = b;
        latest = inputs.0 ∙ budget;
        over = over;
        since = inputs.1 ∙ ground (arith, budget, over, began);
      }

  step-Breached :
      (start : ℕ) (s : State F32) (call : Call F32)
      → NoRelief c call
      → Breached start s
      → Breached start (step lt c s call)
  unfolding step report_host report_budget shim_heartbeat tick
  step-Breached start s (reports_host m) bad v =
      recompute-Breached start _ v.observation m.taken_at v.latest v.over
        (ap (λ o. unwrap_or o v.observation.taken_at) v.since)
  step-Breached start s (reports_budget o) bad v =
      recompute-Breached start _ o o.taken_at refl bad (ap (λ b. unwrap_or b o.taken_at) v.since)
  step-Breached start s (heartbeats now) bad v =
      recompute-Breached start _ v.observation now v.latest v.over
        (ap (λ o. unwrap_or o v.observation.taken_at) v.since)
  step-Breached start s (ticks now) bad v =
      recompute-Breached start s v.observation now v.latest v.over
        (ap (λ o. unwrap_or o v.observation.taken_at) v.since)

  run-Breached :
      (start : ℕ) (s : State F32) (calls : List (Call F32))
      → All (NoRelief c) calls
      → Breached start s
      → Breached start (run lt c s calls)
  unfolding run
  run-Breached start s [] bad v = v
  run-Breached start s (call ∷ calls) bad v =
      run-Breached start (step lt c s call) calls bad.1 (step-Breached start s call bad.0 v)

  safe_when :
      (start : ℕ) (d : DeadmanSignal) (l : PressureLevel)
      → d ≡ tripped start budget_breach
      → IsSafe d l
      → l ≡ l4_safe_mode
  safe_when start ok l e h = cc
  safe_when start (tripped since reason) l e h = h

  -- From a state with the invariant and no breach: once p99 latency is reported over budget, whatever
  -- calls follow, as long as every further report of the budget is over it too, a tick at the end of the
  -- sustained-breach window or later trips the switch for the breach, dated to the first report, and
  -- publishes safe mode.
  pub tick-run-report_budget :
      (s : State F32) (o : BudgetObservation F32) (calls : List (Call F32)) (now : ℕ)
      → Inv s
      → s.breach_since ≡ none
      → c.p99_latency_budget_us < o.p99_latency_us
      → All (NoRelief c) calls
      → c.sustained_breach_window ≤ now - o.taken_at
      → let s' = tick lt c (run lt c (report_budget lt c s o) calls) now in
        (s'.published_deadman ≡ tripped o.taken_at budget_breach)
        × (s'.published_level ≡ l4_safe_mode)
  unfolding tick report_budget
  tick-run-report_budget s o calls now v calm over bad lasted =
      let s0 : State F32 = record s { budget = some o } in
      let s1 = run lt c (recompute lt c s0 o.taken_at) calls in
      let v1 =
        run-Inv lt c (recompute lt c s0 o.taken_at) calls
          (recompute-Inv lt c s0 o.taken_at v.level_published v.deadman_published) in
      let v2 = recompute-Inv lt c s1 now v1.level_published v1.deadman_published in
      let held = run-Breached o.taken_at (recompute lt c s0 o.taken_at) calls bad (
        recompute-Breached o.taken_at s0 o o.taken_at refl over
          (ap (λ b. unwrap_or b o.taken_at) calm)) in
      let trip =
        breach_trips s1 held.observation o.taken_at now held.latest held.since held.over lasted in
      let signal = (recompute-parts lt c s1 now).0 ∙ trip in
      (v2.deadman_published ∙ signal, v2.level_published ∙ safe_when o.taken_at _ _ signal v2.safe)
