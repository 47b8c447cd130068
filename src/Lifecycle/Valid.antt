-- ===== src/Lifecycle/Valid.antt =====
-- When a lifecycle is well-formed, and when a store of lifecycles is.
use athar.Prelude.{
  String, Option, none, some, unwrap_or, Bool, true, false, ◌≡◌, length, is_some, if◌then◌else◌,
}
use athar.Lifecycle.Types.{
  State, started, processing, pending, is_terminal, Closure, is_closed, Lifecycle, LifecycleType,
  payment, staleness_for,
}
use athar.Lifecycle.Store.{LifecycleStore}
use athar.Lifecycle.Transition.{transition_for}

-- The states of a lifecycle that is still open.
abbrev pub is_live : State → Bool
is_live started = true
is_live processing = true
is_live pending = true
is_live _ = false

-- Closed in a terminal state, or open in a live one.
abbrev pub is_consistent : State → Closure → Bool
is_consistent st cl = if is_closed cl then is_terminal st else is_live st

pub record IsValid (lc : Lifecycle) : Type 0 where
  pub consistent : is_consistent lc.state lc.closure ≡ true
  pub closed_at : is_some lc.closed_at_ms ≡ is_closed lc.closure
  pub tiers : length lc.tiers ≡ length lc.event_ids
  pub staleness : lc.staleness_ms ≡ staleness_for lc.lifecycle_type

pub record IsSound {S : Type 0} (store : LifecycleStore S) (s : S) : Type 0 where
  pub keyed : (id : String) (lc : Lifecycle) → store.get s id ≡ some lc → lc.id ≡ id
  pub valid : (id : String) (lc : Lifecycle) → store.get s id ≡ some lc → IsValid lc

-- What a transition, if there is one, leads to is consistent.
LeadsToConsistent : Option (State × Closure) → Type 0
LeadsToConsistent none = Unit {0}
LeadsToConsistent (some next) = is_consistent next.0 next.1 ≡ true

arm :
    (b : Bool) (st : State) (cl : Closure) (rest : Option (State × Closure))
    → is_consistent st cl ≡ true
    → LeadsToConsistent rest
    → LeadsToConsistent (if b then some (st, cl) else rest)
unfolding LeadsToConsistent
arm true st cl rest h k = h
arm false st cl rest h k = k

no_transition : LeadsToConsistent none
unfolding LeadsToConsistent
no_transition = tt

-- Every transition of the source's table keeps state and closure consistent.
transition_for-LeadsToConsistent :
    (t : LifecycleType) (event_type : String) → LeadsToConsistent (transition_for t event_type)
unfolding transition_for
transition_for-LeadsToConsistent payment event_type = search (arm, no_transition) depth 20

-- The state and closure after an event stay consistent, whatever its type.
pub unwrap_or-transition_for :
    (t : LifecycleType) (event_type : String) (st : State) (cl : Closure)
    → is_consistent st cl ≡ true
    → let next = unwrap_or (transition_for t event_type) (st, cl) in
      is_consistent next.0 next.1 ≡ true
unfolding LeadsToConsistent
unwrap_or-transition_for t event_type st cl h =
    keep (transition_for t event_type) (transition_for-LeadsToConsistent t event_type)
  where
    keep :
        (o : Option (State × Closure))
        → LeadsToConsistent o
        → is_consistent (unwrap_or o (st, cl)).0 (unwrap_or o (st, cl)).1 ≡ true
    keep none k = h
    keep (some next) k = k
