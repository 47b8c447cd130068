-- ===== src/Tests/Lifecycles.antt =====
-- The lifecycle theorems on a payment that is created, settled and then retried.
use athar.Prelude.{ℕ, List, [], ◌∷◌, none, some, ◌≡◌, refl}
use athar.Prelude.Maps.{get, insert}
use athar.Lifecycle.Types.{
  Lifecycle, payment, started, success, opened, closed, InferenceTier, from_event_type,
}
use athar.Lifecycle.Correlate.{
  correlate, matched, explicit_match, business_match, causation_match, resource_match, or_next,
  new_for_resource, new_business_key, business_only, business_id, resource_of,
}
use athar.Lifecycle.Transition.{transition_for}
use athar.Lifecycle.InMemory.{in_memory, new, upsert, record_event, index, index_events}
use athar.Lifecycle.InMemory.Laws.{in_memory-laws}
use athar.Lifecycle.InMemory.Listing.{IsKept-ListsOpen}
use athar.Lifecycle.Valid.{IsSound}
use athar.Lifecycle.Engine.{
  apply, apply_corr, apply_match, apply_new, created_from, with_event, lifecycle_id_for,
}
use athar.Lifecycle.Engine.Closed.{apply-Kept, Kept}
use athar.Lifecycle.Engine.Bindings.{apply-Truthful, Truthful, correlate-apply}
use athar.Lifecycle.Engine.Validity.{apply-IsSound}
use athar.Lifecycle.Scanner.{sweep}
use athar.Prelude.{contains}
use athar.Lifecycle.Scanner.Sweep.{reported, Swept, get-sweep}
use athar.Lifecycle.History.{Call, applies, step, run, IsGood, run-new-IsGood}
use athar.Tests.Events.{create_event, settle_event, retry_event, child_event}

abbrev after_create : List (Call ℕ (Unit {0}))
after_create = applies create_event 1 ∷ []

abbrev after_settle : List (Call ℕ (Unit {0}))
after_settle = applies create_event 1 ∷ applies settle_event 2 ∷ []

abbrev pub settled : Lifecycle
settled = record {
  id = "lc_evt_1";
  tenant_id = "tnt_a";
  lifecycle_type = payment;
  business_key = none;
  resource = some "pay_1";
  state = success;
  closure = closed;
  started_at_ms = 1;
  last_event_at_ms = 2;
  closed_at_ms = some 2;
  event_ids = "evt_1" ∷ "evt_2" ∷ [];
  late_events = [];
  staleness_ms = 3600000;
  tiers = InferenceTier.resource_id ∷ InferenceTier.resource_id ∷ [];
}

abbrev begun : Lifecycle
begun = record settled {
  state = started;
  closure = opened;
  last_event_at_ms = 1;
  closed_at_ms = none;
  event_ids = "evt_1" ∷ [];
  tiers = InferenceTier.resource_id ∷ [];
}

get-settled : get "lc_evt_1" (run new after_settle).lifecycles ≡ some settled
unfolding run step apply apply_corr apply_match apply_new correlate explicit_match business_match
    causation_match resource_match or_next new_for_resource new_business_key business_only
    business_id resource_of from_event_type transition_for created_from with_event lifecycle_id_for
    upsert record_event index index_events get insert
get-settled = refl

unused : in_memory.get (run new after_settle) (lifecycle_id_for retry_event) ≡ none
unfolding run step apply apply_corr apply_match apply_new correlate explicit_match business_match
    causation_match resource_match or_next new_for_resource new_business_key business_only
    business_id resource_of from_event_type transition_for created_from with_event lifecycle_id_for
    upsert record_event index index_events get insert
unused = refl

get-begun : get "lc_evt_1" (run new after_create).lifecycles ≡ some begun
unfolding run step apply apply_corr apply_match apply_new correlate explicit_match business_match
    causation_match resource_match or_next new_for_resource new_business_key business_only
    business_id resource_of from_event_type transition_for created_from with_event lifecycle_id_for
    upsert record_event index index_events get insert
get-begun = refl

apply-Kept_example :
    Kept in_memory "lc_evt_1" settled (apply in_memory (run new after_settle) retry_event 3).0
apply-Kept_example =
    apply-Kept in_memory in_memory-laws (run new after_settle) retry_event 3 "lc_evt_1" settled
      (run-new-IsGood after_settle).sound unused get-settled refl

apply-Truthful_example :
    Truthful in_memory
      (run new after_create)
      settle_event
      (apply in_memory (run new after_create) settle_event 2)
apply-Truthful_example =
    apply-Truthful in_memory in_memory-laws (run new after_create) settle_event 2
      (run-new-IsGood after_create).sound

apply-IsSound_example : IsSound in_memory (apply in_memory (run new after_settle) retry_event 3).0
apply-IsSound_example =
    apply-IsSound in_memory in_memory-laws (run new after_settle) retry_event 3
      (run-new-IsGood after_settle).sound

correlate-apply_example :
    correlate in_memory (apply in_memory new create_event 1).0 child_event
    ≡ matched "lc_evt_1" InferenceTier.causation
unfolding run step apply apply_corr apply_match apply_new correlate explicit_match business_match
    causation_match resource_match or_next new_for_resource new_business_key business_only
    business_id resource_of from_event_type transition_for created_from with_event lifecycle_id_for
    upsert record_event index index_events get insert
correlate-apply_example =
    correlate-apply in_memory in_memory-laws new create_event child_event 1
      (run-new-IsGood {F64 = ℕ} {Json = Unit {0}} []).sound refl refl refl refl

-- The payment is closed by a sweep one hour after its event.
get-sweep_example :
    let swept = sweep in_memory (run new after_create) 3600001 in
    (after : Lifecycle) × (in_memory.get swept.0 "lc_evt_1" ≡ some after)
    × Swept 3600001 begun after (contains (reported swept.1) "lc_evt_1")
get-sweep_example =
    get-sweep in_memory in_memory-laws (run new after_create) 3600001 "lc_evt_1" begun
      (IsKept-ListsOpen (run new after_create) (run-new-IsGood after_create).kept) get-begun

run-new-IsGood_example : IsGood (run new after_settle)
run-new-IsGood_example = run-new-IsGood after_settle
