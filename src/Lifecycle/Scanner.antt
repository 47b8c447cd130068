-- ===== src/Lifecycle/Scanner.antt =====
-- `StalenessScanner::sweep` of daemon/crates/athar-lifecycle/src/scanner.rs. The loop runs over the
-- list that `all_open` returned before it started.
pub mod Sweep
pub mod Soundness
use athar.Prelude.{ℕ, ◌-◌, String, List, [], ◌∷◌, Option, some, Bool, leb, if◌then◌else◌}
use athar.Lifecycle.Types.{
  State, started, processing, pending, abandoned, timeout, closed_with_uncertainty, Lifecycle,
}
use athar.Lifecycle.Store.{LifecycleStore}

pub record StalenessResult : Type 0 where
  pub lifecycle_id : String
  pub at_ms : ℕ
  pub was_state : State
  pub new_state : State

unfoldable pub timeout_state_for : State → State
timeout_state_for started = abandoned
timeout_state_for processing = timeout
timeout_state_for pending = timeout
timeout_state_for State.unknown = timeout
timeout_state_for other = other

-- `age >= lc.staleness_ms`; the subtraction saturates.
unfoldable pub is_stale : ℕ → Lifecycle → Bool
is_stale now_ms lc = leb lc.staleness_ms (now_ms - lc.last_event_at_ms)

unfoldable pub expire : ℕ → Lifecycle → Lifecycle
unfolding timeout_state_for
expire now_ms lc = record lc {
  state = timeout_state_for lc.state;
  closure = closed_with_uncertainty;
  closed_at_ms = some now_ms;
}

unfoldable pub staleness_result : ℕ → Lifecycle → StalenessResult
unfolding timeout_state_for
staleness_result now_ms lc = record {
  lifecycle_id = lc.id;
  at_ms = now_ms;
  was_state = lc.state;
  new_state = timeout_state_for lc.state;
}

module _ {S : Type 0} (store : LifecycleStore S) where
  -- The rounds of the loop from here on.
  unfoldable pub sweep_from : S → ℕ → List Lifecycle → S × List StalenessResult
  sweep_from s now_ms [] = (s, [])
  sweep_from s now_ms (lc ∷ lcs) =
      let stale = sweep_from (store.upsert s (expire now_ms lc)) now_ms lcs in
      let fresh = sweep_from s now_ms lcs in
      if is_stale now_ms lc then (stale.0, staleness_result now_ms lc ∷ stale.1) else fresh

  unfoldable pub sweep : S → ℕ → S × List StalenessResult
  unfolding sweep_from
  sweep s now_ms = sweep_from s now_ms (store.all_open s)
