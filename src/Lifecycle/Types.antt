-- ===== src/Lifecycle/Types.antt =====
-- daemon/crates/athar-lifecycle/src/types.rs. Times are milliseconds.
use text.Mathlib.Text.{starts_with}
use athar.Prelude.{ℕ, ◌*◌, String, List, Option, none, some, Bool, true, false, if◌then◌else◌}

pub data LifecycleType : Type 0 where
  payment : LifecycleType

unfoldable pub from_event_type : String → Option LifecycleType
from_event_type event_type = if starts_with event_type "payment." then some payment else none

pub data State : Type 0 where
  started processing pending success failed cancelled rejected timeout expired abandoned : State
  reversed compensated partially_completed conflicted unknown : State

abbrev pub is_terminal : State → Bool
is_terminal success = true
is_terminal failed = true
is_terminal cancelled = true
is_terminal rejected = true
is_terminal timeout = true
is_terminal expired = true
is_terminal abandoned = true
is_terminal reversed = true
is_terminal compensated = true
is_terminal _ = false

pub data Closure : Type 0 where
  opened closed closed_with_exception closed_with_uncertainty : Closure

abbrev pub is_closed : Closure → Bool
is_closed opened = false
is_closed _ = true

pub data InferenceTier : Type 0 where
  explicit business_id causation resource_id unknown : InferenceTier

-- In hundredths: the source's values are 1.00, 0.95, 0.90, 0.80 and 0.
unfoldable pub confidence : InferenceTier → ℕ
confidence explicit = 100
confidence business_id = 95
confidence causation = 90
confidence resource_id = 80
confidence unknown = 0

pub data LateEventClass : Type 0 where
  duplicate correction amendment conflict late_information unknown : LateEventClass

pub record LateEvent : Type 0 where
  pub event_id : String
  pub event_type : String
  pub arrived_at_ms : ℕ
  pub class : LateEventClass

pub record Lifecycle : Type 0 where
  pub id : String
  pub tenant_id : String
  pub lifecycle_type : LifecycleType
  pub business_key : Option String
  pub resource : Option String
  pub state : State
  pub closure : Closure
  pub started_at_ms : ℕ
  pub last_event_at_ms : ℕ
  pub closed_at_ms : Option ℕ
  pub event_ids : List String
  pub late_events : List LateEvent
  pub staleness_ms : ℕ
  pub tiers : List InferenceTier

abbrev pub staleness_for : LifecycleType → ℕ
staleness_for payment = 60 * 60 * 1000
