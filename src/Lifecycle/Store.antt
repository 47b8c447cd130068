-- ===== src/Lifecycle/Store.antt =====
-- The trait `LifecycleStore` of daemon/crates/athar-lifecycle/src/store.rs as an interface: its
-- operations over a store type `S`, and the laws that the engine and the scanner rely on.
use athar.Prelude.{ℕ, String, List, Option, none, some, Bool, ◌≡◌, str_eq, contains, if◌then◌else◌}
use athar.Lifecycle.Types.{Lifecycle}

pub record LifecycleStore (S : Type 0) : Type 0 where
  pub get : S → String → Option Lifecycle
  pub find_by_resource : S → String → Option String
  pub find_by_business_key : S → String → Option String
  pub find_by_event : S → String → Option String
  pub upsert : S → Lifecycle → S
  pub record_event : S → String → String → S
  pub all_open : S → List Lifecycle
  pub count : S → ℕ
  pub count_open : S → ℕ

-- The text is the one that the field holds.
abbrev pub holds : Option String → String → Bool
holds none k = Bool.false
holds (some j) k = str_eq j k

pub record StoreLaws {S : Type 0} (store : LifecycleStore S) : Type 0 where
  pub get-upsert :
      (s : S) (lc : Lifecycle) (id : String)
      → store.get (store.upsert s lc) id ≡ (if str_eq lc.id id then some lc else store.get s id)
  pub get-record_event :
      (s : S) (ev lc id : String) → store.get (store.record_event s ev lc) id ≡ store.get s id
  pub resource-upsert :
      (s : S) (lc : Lifecycle) (r : String)
      → store.find_by_resource (store.upsert s lc) r
        ≡ (if holds lc.resource r then some lc.id else store.find_by_resource s r)
  pub business_key-upsert :
      (s : S) (lc : Lifecycle) (k : String)
      → store.find_by_business_key (store.upsert s lc) k
        ≡ (if holds lc.business_key k then some lc.id else store.find_by_business_key s k)
  pub event-upsert :
      (s : S) (lc : Lifecycle) (ev : String)
      → store.find_by_event (store.upsert s lc) ev
        ≡ (if contains lc.event_ids ev then some lc.id else store.find_by_event s ev)
  pub resource-record_event :
      (s : S) (ev lc r : String)
      → store.find_by_resource (store.record_event s ev lc) r ≡ store.find_by_resource s r
  pub business_key-record_event :
      (s : S) (ev lc k : String)
      → store.find_by_business_key (store.record_event s ev lc) k ≡ store.find_by_business_key s k
  pub event-record_event :
      (s : S) (ev lc e : String)
      → store.find_by_event (store.record_event s ev lc) e
        ≡ (if str_eq ev e then some lc else store.find_by_event s e)
