-- ===== src/Lifecycle/Correlate.antt =====
-- `correlate` of daemon/crates/athar-lifecycle/src/engine.rs: the four tiers, in order.
use athar.Prelude.{String, Option, none, some, or_else, and_then}
use athar.Prelude.Maps
use athar.Event.Types.{Event}
use athar.Lifecycle.Types.{LifecycleType, from_event_type, InferenceTier}
use athar.Lifecycle.Store.{LifecycleStore}

pub data Corr : Type 0 where
  matched : String → InferenceTier → Corr
  fresh : LifecycleType → Option String → Option String → Corr
  nothing : Corr

-- A match of the tier, or else what comes after it.
unfoldable pub or_next : Option String → InferenceTier → Corr → Corr
or_next none tier next = next
or_next (some id) tier next = matched id tier

module _ {F64 Json : Type 0} where
  unfoldable pub business_id : Event F64 Json → Option String
  business_id e = Maps.get "business_id" e.causality.customer_correlation_ids

  unfoldable pub resource_of : Event F64 Json → Option String
  resource_of e = and_then e.resource (λ r. r.id)

  -- `business_key` of a new lifecycle that has a resource.
  unfoldable pub new_business_key : Event F64 Json → Option String
  unfolding business_id
  new_business_key e = or_else (business_id e) (and_then e.operation (λ op. op.operation_id))

  -- The last resort: a new lifecycle with a business id only.
  unfoldable pub business_only : Event F64 Json → Corr
  unfolding business_id
  business_only e = elim (business_id e) [
    | none ↦ nothing
    | some bid ↦ elim (from_event_type e.event_type) [
      | none ↦ nothing
      | some t ↦ fresh t none (some bid)
    ]
  ]

  unfoldable pub new_for_resource : Event F64 Json → Option String → Corr
  unfolding business_only new_business_key
  new_for_resource e none = business_only e
  new_for_resource e (some rid) = elim (from_event_type e.event_type) [
    | none ↦ business_only e
    | some t ↦ fresh t (some rid) (new_business_key e)
  ]

module _ {S F64 Json : Type 0} (store : LifecycleStore S) where
  -- The lookups of the four tiers.
  unfoldable pub explicit_match : S → Event F64 Json → Option String
  explicit_match s e =
      and_then e.operation (λ op. and_then op.operation_id (store.find_by_business_key s))

  unfoldable pub business_match : S → Event F64 Json → Option String
  unfolding business_id
  business_match s e = and_then (business_id e) (store.find_by_business_key s)

  unfoldable pub causation_match : S → Event F64 Json → Option String
  causation_match s e =
      and_then (or_else e.causality.parent_event_id e.causality.causation_id)
        (store.find_by_event s)

  unfoldable pub resource_match : S → Event F64 Json → Option String
  unfolding resource_of
  resource_match s e = and_then (resource_of e) (store.find_by_resource s)

  unfoldable pub correlate : S → Event F64 Json → Corr
  unfolding explicit_match business_match causation_match resource_match new_for_resource or_next
      resource_of
  correlate s e = or_next (explicit_match s e) InferenceTier.explicit (
      or_next (business_match s e) InferenceTier.business_id (
        or_next (causation_match s e) InferenceTier.causation (
          or_next (resource_match s e) InferenceTier.resource_id
            (new_for_resource e (resource_of e)))))
