-- ===== src/Lifecycle/Engine.antt =====
-- `LifecycleEngine::apply` of daemon/crates/athar-lifecycle/src/engine.rs, over any store. The mutex
-- makes a call one step, so it is one function here.
pub mod Cases
pub mod Closed
pub mod Validity
pub mod Bindings
use Prim.Native.String.{◌++◌ as str_append}
use athar.Prelude.{
  ℕ, String, List, [], ◌∷◌, ◌++◌, Option, none, some, Bool, true, false, ◌||◌, ◌&&◌, not, str_eq,
  contains, or_else, and_then, unwrap_or, if◌then◌else◌,
}
use athar.Prelude.Maps
use athar.Event.Types.{Event}
use athar.Lifecycle.Types.{
  LifecycleType, payment, from_event_type, State, started, processing, pending, success, failed,
  cancelled, reversed, is_terminal, Closure, opened, closed, closed_with_exception, is_closed,
  InferenceTier, LateEventClass, duplicate, conflict, amendment, late_information, Lifecycle,
  staleness_for,
}
use athar.Lifecycle.Store.{LifecycleStore}
use athar.Lifecycle.Transition.{transition_for, classify_late_event}
use athar.Lifecycle.Correlate.{Corr, matched, fresh, nothing, correlate}

pub data ApplyOutcome : Type 0 where
  created : String → LifecycleType → State → Closure → ApplyOutcome
  updated : String → InferenceTier → State → Closure → ApplyOutcome
  late_event : String → InferenceTier → LateEventClass → ApplyOutcome
  unbound : ApplyOutcome

module _ {F64 Json : Type 0} where
  -- The closed lifecycle with the late event recorded.
  unfoldable pub with_late_event : Lifecycle → Event F64 Json → ℕ → Lifecycle
  unfolding classify_late_event
  with_late_event lc e now_ms = record lc {
    late_events =
        lc.late_events
        ++ record {
          event_id = e.event_id;
          event_type = e.event_type;
          arrived_at_ms = now_ms;
          class = classify_late_event lc e.event_id e.event_type;
        }
          ∷ [];
  }

  -- The open lifecycle with the event applied.
  unfoldable pub with_event :
      Lifecycle → Event F64 Json → InferenceTier → ℕ → State × Closure → Lifecycle
  with_event lc e tier now_ms next = record lc {
    event_ids = lc.event_ids ++ e.event_id ∷ [];
    tiers = lc.tiers ++ tier ∷ [];
    last_event_at_ms = now_ms;
    state = next.0;
    closure = next.1;
    closed_at_ms = if is_closed next.1 then some now_ms else lc.closed_at_ms;
  }

  unfoldable pub lifecycle_id_for : Event F64 Json → String
  lifecycle_id_for e = str_append "lc_" e.event_id

  unfoldable pub created_from :
      Event F64 Json
      → LifecycleType
      → Option String
      → Option String
      → ℕ
      → State × Closure
      → Lifecycle
  unfolding lifecycle_id_for
  created_from e t resource business_key now_ms next = record {
    id = lifecycle_id_for e;
    tenant_id = e.tenant_id;
    lifecycle_type = t;
    business_key = business_key;
    resource = resource;
    state = next.0;
    closure = next.1;
    started_at_ms = now_ms;
    last_event_at_ms = now_ms;
    closed_at_ms = if is_closed next.1 then some now_ms else none;
    event_ids = e.event_id ∷ [];
    late_events = [];
    staleness_ms = staleness_for t;
    tiers = InferenceTier.resource_id ∷ [];
  }

module _ {S F64 Json : Type 0} (store : LifecycleStore S) where
  -- The branch `Corr::Match`, with what `store.get` returns.
  unfoldable pub apply_match :
      S → Event F64 Json → ℕ → String → InferenceTier → Option Lifecycle → S × ApplyOutcome
  unfolding with_late_event with_event
  apply_match s e now_ms id tier none = (s, unbound)
  apply_match s e now_ms id tier (some lc) =
      let next = unwrap_or (transition_for lc.lifecycle_type e.event_type) (lc.state, lc.closure) in
      if is_closed lc.closure
      then (
        store.upsert s (with_late_event lc e now_ms),
        late_event id tier (classify_late_event lc e.event_id e.event_type),
      )
      else (
        store.record_event (store.upsert s (with_event lc e tier now_ms next)) e.event_id id,
        updated id tier next.0 next.1,
      )

  -- The branch `Corr::New`.
  unfoldable pub apply_new :
      S → Event F64 Json → ℕ → LifecycleType → Option String → Option String → S × ApplyOutcome
  unfolding created_from
  apply_new s e now_ms t resource business_key =
      let id = lifecycle_id_for e in
      let next = unwrap_or (transition_for t e.event_type) (started, opened) in
      (
        store.record_event (store.upsert s (created_from e t resource business_key now_ms next))
            e.event_id id,
        created id t next.0 next.1,
      )

  unfoldable pub apply_corr : S → Event F64 Json → ℕ → Corr → S × ApplyOutcome
  unfolding apply_match apply_new
  apply_corr s e now_ms (matched id tier) = apply_match s e now_ms id tier (store.get s id)
  apply_corr s e now_ms (fresh t resource business_key) =
      apply_new s e now_ms t resource business_key
  apply_corr s e now_ms nothing = (s, unbound)

  unfoldable pub apply : S → Event F64 Json → ℕ → S × ApplyOutcome
  unfolding apply_corr correlate
  apply s e now_ms = apply_corr s e now_ms (correlate store s e)
