-- ===== src/Lifecycle/InMemory/Laws.antt =====
-- The in-memory store and the laws of the store interface.
use athar.Prelude.{
  ◌≡◌, refl, String, List, [], ◌∷◌, Option, none, some, contains, if◌then◌else◌, arith,
}
use athar.Prelude.Maps.{Map, insert, get, get-insert}
use athar.Lifecycle.Store.{StoreLaws, holds}
use athar.Lifecycle.InMemory.{in_memory, index, index_events, upsert, record_event}

get-index :
    (o : Option String) (id k : String) (m : Map String)
    → get k (index o id m) ≡ (if holds o k then some id else get k m)
unfolding index
get-index none id k m = refl
get-index (some j) id k m = get-insert j k id m

get-index_events :
    (evs : List String) (id k : String) (m : Map String)
    → get k (index_events evs id m) ≡ (if contains evs k then some id else get k m)
unfolding index_events
get-index_events [] id k m = refl
get-index_events (ev ∷ evs) id k m =
    ground (arith, get-index_events evs id k (insert ev id m), get-insert ev k id m)

-- The in-memory store has the laws of the store interface: what its lookups return after a write,
-- for each of the four maps.
pub in_memory-laws : StoreLaws in_memory
unfolding upsert record_event
in_memory-laws = record {
  get-upsert = λ s lc id. get-insert lc.id id lc s.lifecycles;
  get-record_event = λ s ev lc id. refl;
  resource-upsert = λ s lc r. get-index lc.resource lc.id r s.by_resource;
  business_key-upsert = λ s lc k. get-index lc.business_key lc.id k s.by_business_key;
  event-upsert = λ s lc ev. get-index_events lc.event_ids lc.id ev s.by_event;
  resource-record_event = λ s ev lc r. refl;
  business_key-record_event = λ s ev lc k. refl;
  event-record_event = λ s ev lc e. get-insert ev e lc s.by_event;
}
