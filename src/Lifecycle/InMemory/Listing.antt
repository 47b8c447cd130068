-- ===== src/Lifecycle/InMemory/Listing.antt =====
-- The in-memory store lists its open lifecycles: its table has one entry to an id, under that id.
use athar.Prelude.{
  String, List, [], ◌∷◌, some, true, false, ◌≡◌, refl, All, contains, str_eq, arith, eq_iff,
  eq_refl, Bool-cases, inl, inr,
}
use athar.Prelude.Maps.{Map, keys, get, insert, Distinct, Distinct-insert, contains-keys_of_get}
use athar.Lifecycle.Types.{Lifecycle, is_closed, Closure, opened}
use athar.Lifecycle.Scanner.Sweep.{ListsOpen, ids}
use athar.Lifecycle.InMemory.{InMemoryStore, in_memory, is_open, all_open, upsert, record_event}

abbrev pub Keyed : Map Lifecycle → Type 0
Keyed [] = Unit {0}
Keyed (e ∷ m) = (e.1.id ≡ e.0) × Keyed m

pub record IsKept (s : InMemoryStore) : Type 0 where
  pub distinct : Distinct s.lifecycles
  pub keyed : Keyed s.lifecycles

Keyed-insert : (lc : Lifecycle) (m : Map Lifecycle) → Keyed m → Keyed (insert lc.id lc m)
unfolding insert
Keyed-insert lc [] k = (refl, tt)
Keyed-insert lc (e ∷ m) k = ground (arith, Keyed-insert lc m k.1)

pub upsert-IsKept : (s : InMemoryStore) (lc : Lifecycle) → IsKept s → IsKept (upsert s lc)
unfolding upsert
upsert-IsKept s lc k = record {
  distinct = Distinct-insert lc.id lc s.lifecycles k.distinct;
  keyed = Keyed-insert lc s.lifecycles k.keyed;
}

pub record_event-IsKept :
    (s : InMemoryStore) (ev lc : String) → IsKept s → IsKept (record_event s ev lc)
unfolding record_event
record_event-IsKept s ev lc k = record { distinct = k.distinct; keyed = k.keyed }

open_of_is_open : (c : Closure) → is_open c ≡ true → is_closed c ≡ false
open_of_is_open opened h = refl
open_of_is_open _ h = cc

is_open_of_open : (c : Closure) → is_closed c ≡ false → is_open c ≡ true
is_open_of_open opened h = refl
is_open_of_open _ h = cc

-- A longer table finds what the shorter one finds, if its new key is not in it.
All-get-cons :
    (e : String × Lifecycle) (m : Map Lifecycle) (lcs : List Lifecycle)
    → contains (keys m) e.0 ≡ false
    → All (λ lc. get lc.id m ≡ some lc) lcs
    → All (λ lc. get lc.id (e ∷ m) ≡ some lc) lcs
unfolding get
All-get-cons e m [] d h = tt
All-get-cons e m (lc ∷ lcs) d h = (
  ground (arith, contains-keys_of_get lc.id m lc h.0, eq_iff e.0 lc.id),
  All-get-cons e m lcs d h.1,
)

all_open-listed :
    (m : Map Lifecycle) → Distinct m → Keyed m → All (λ lc. get lc.id m ≡ some lc) (all_open m)
unfolding all_open get
all_open-listed [] d k = tt
all_open-listed (e ∷ m) d k =
    let rest = All-get-cons e m (all_open m) d.0 (all_open-listed m d.1 k.1) in
    elim (Bool-cases (is_open e.1.closure)) [
      | inl open_ ↦ rw (open_, all_open) (ground (arith, k.0, eq_refl e.0), rest)
      | inr shut ↦ rw (shut, all_open) rest
    ]

all_open-opened : (m : Map Lifecycle) → All (λ lc. is_closed lc.closure ≡ false) (all_open m)
unfolding all_open
all_open-opened [] = tt
all_open-opened (e ∷ m) = elim (Bool-cases (is_open e.1.closure)) [
  | inl open_ ↦ rw (open_, all_open) (open_of_is_open e.1.closure open_, all_open-opened m)
  | inr shut ↦ rw (shut, all_open) (all_open-opened m)
]

all_open_complete :
    (m : Map Lifecycle) (id : String) (lc : Lifecycle)
    → Keyed m
    → get id m ≡ some lc
    → is_closed lc.closure ≡ false
    → contains (ids (all_open m)) id ≡ true
unfolding all_open get
all_open_complete [] id lc k g o = cc
all_open_complete (e ∷ m) id lc k g o = elim (Bool-cases (str_eq e.0 id)) [
  | inl same ↦
      let one : e.1 ≡ lc = ground arith in
      ground (arith, is_open_of_open e.1.closure (rw one o), k.0, eq_iff e.0 id, eq_iff e.1.id id)
  | inr other ↦ ground (arith, all_open_complete m id lc k.1 (rw (other, get) at g) o)
]

pub IsKept-ListsOpen : (s : InMemoryStore) → IsKept s → ListsOpen in_memory s
IsKept-ListsOpen s k = record {
  listed = all_open-listed s.lifecycles k.distinct k.keyed;
  opened = all_open-opened s.lifecycles;
  complete = λ id lc g o. all_open_complete s.lifecycles id lc k.keyed g o;
}
