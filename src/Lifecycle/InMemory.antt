-- ===== src/Lifecycle/InMemory.antt =====
-- `InMemoryStore` of daemon/crates/athar-lifecycle/src/store.rs; its laws are in Laws. The locks are
-- not modelled: a call is one step.
pub mod Laws
pub mod Listing
use athar.Prelude.{
  ℕ, String, List, [], ◌∷◌, Option, none, some, Bool, true, false, length, retain, contains,
  if◌then◌else◌,
}
use athar.Prelude.Maps.{Map, insert}
use athar.Prelude.Maps
use athar.Lifecycle.Types.{Lifecycle, Closure, opened, closed, is_closed}
use athar.Lifecycle.Store.{LifecycleStore}

pub record InMemoryStore : Type 0 where
  pub lifecycles : Map Lifecycle
  pub by_resource : Map String
  pub by_business_key : Map String
  pub by_event : Map String

abbrev pub new : InMemoryStore
new = record { lifecycles = []; by_resource = []; by_business_key = []; by_event = [] }

unfoldable pub index : Option String → String → Map String → Map String
index none id m = m
index (some k) id m = insert k id m

unfoldable pub index_events : List String → String → Map String → Map String
index_events [] id m = m
index_events (ev ∷ evs) id m = index_events evs id (insert ev id m)

unfoldable pub upsert : InMemoryStore → Lifecycle → InMemoryStore
unfolding index index_events
upsert s lc = record {
  lifecycles = insert lc.id lc s.lifecycles;
  by_resource = index lc.resource lc.id s.by_resource;
  by_business_key = index lc.business_key lc.id s.by_business_key;
  by_event = index_events lc.event_ids lc.id s.by_event;
}

unfoldable pub record_event : InMemoryStore → String → String → InMemoryStore
record_event s ev lc = record s { by_event = insert ev lc s.by_event }

abbrev pub is_open : Closure → Bool
is_open opened = true
is_open _ = false

unfoldable pub all_open : Map Lifecycle → List Lifecycle
all_open [] = []
all_open (e ∷ m) = if is_open e.1.closure then e.1 ∷ all_open m else all_open m

abbrev pub in_memory : LifecycleStore InMemoryStore
in_memory = record {
  get = λ s id. Maps.get id s.lifecycles;
  find_by_resource = λ s r. Maps.get r s.by_resource;
  find_by_business_key = λ s k. Maps.get k s.by_business_key;
  find_by_event = λ s ev. Maps.get ev s.by_event;
  upsert = upsert;
  record_event = record_event;
  all_open = λ s. all_open s.lifecycles;
  count = λ s. length s.lifecycles;
  count_open = λ s. length (all_open s.lifecycles);
}
