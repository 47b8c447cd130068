-- ===== src/Lifecycle/Transition.antt =====
-- `transition_for` and `classify_late_event` of daemon/crates/athar-lifecycle/src/engine.rs.
use athar.Prelude.{
  String, Option, none, some, Bool, true, false, ◌||◌, ◌&&◌, not, str_eq, contains, if◌then◌else◌,
}
use athar.Lifecycle.Types.{
  LifecycleType, payment, State, started, processing, pending, success, failed, cancelled, reversed,
  is_terminal, Closure, opened, closed, closed_with_exception, LateEventClass, duplicate, conflict,
  amendment, late_information, Lifecycle,
}

-- The arms of the source's match, in order.
unfoldable pub transition_for : LifecycleType → String → Option (State × Closure)
transition_for payment t =
    if str_eq t "payment.create"
    then some (started, opened)
    else if str_eq t "payment.process" || str_eq t "payment.processing"
    then some (processing, opened)
    else if str_eq t "payment.pending"
    then some (pending, opened)
    else if str_eq t "payment.retry"
    then some (processing, opened)
    else if str_eq t "payment.settle" || str_eq t "payment.success" || str_eq t "payment.completed"
    then some (success, closed)
    else if str_eq t "payment.fail" || str_eq t "payment.failed" || str_eq t "payment.error"
    then some (failed, closed_with_exception)
    else if str_eq t "payment.cancel" || str_eq t "payment.cancelled"
    then some (cancelled, closed)
    else if str_eq t "payment.reverse" || str_eq t "payment.reversed"
    then some (reversed, closed_with_exception)
    else none

-- `==` on states.
pub State-discrete : Discrete State
State-discrete = hlevel

abbrev pub state_eq : State → State → Bool
unfolding State-discrete
state_eq a b = elim (State-discrete a b) [ yes p ↦ true | no p ↦ false ]

unfoldable pub classify_late_event : Lifecycle → String → String → LateEventClass
classify_late_event lc event_id event_type =
    if contains lc.event_ids event_id
    then duplicate
    else elim (transition_for lc.lifecycle_type event_type) [
      | some (new_state, _) ↦
          if is_terminal new_state && not (state_eq new_state lc.state) then conflict else amendment
      | none ↦ late_information
    ]
