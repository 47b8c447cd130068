-- ===== src/Detection/Targets/Entries.antt =====
-- The targets of one subject of a target tracker.
use athar.Prelude.{
  ℕ, ◌+◌, ◌≤◌, ◌≡◌, refl, String, Bool, true, ◌&&◌, not, Option, none, some, is_some, [], ◌∷◌,
  length, All, leb, eq_iff, unwrap_or, if◌then◌else◌, arith, Bool-cases, inl, inr,
}
use athar.Prelude.Maps.{Map, get, insert, remove, length-insert, length-remove}
use athar.Detection.Targets.{
  TargetConfig, prune, earliest, drop_target, is_full, room_for_target, place, insert_sorted,
}

-- At least one subject is tracked and one target of it, whatever the configuration.
abbrev pub at_least_one : ℕ → ℕ
at_least_one n = if leb n 1 then 1 else n

abbrev pub max_subjects : TargetConfig → ℕ
max_subjects c = at_least_one c.max_subjects

abbrev pub max_targets : TargetConfig → ℕ
max_targets c = at_least_one c.max_targets_per_subject

abbrev pub Few : ℕ → String × Map ℕ → Type 0
Few n e = length e.1 ≤ n

pub length-prune : (cutoff : ℕ) (m : Map ℕ) → length (prune cutoff m) ≤ length m
unfolding prune
length-prune cutoff [] = omega arith
length-prune cutoff (e ∷ m) = ground (arith, length-prune cutoff m)

length-place :
    (lt : String → String → Bool) (k : String) (v : ℕ) (m : Map ℕ)
    → length (place lt k v m) ≡ length m + 1
unfolding place
length-place lt k v [] = refl
length-place lt k v (e ∷ m) = ground (arith, length-place lt k v m)

length-insert_sorted :
    (lt : String → String → Bool) (k : String) (v : ℕ) (m : Map ℕ)
    → length (insert_sorted lt k v m) ≡ (if is_some (get k m) then length m else length m + 1)
unfolding insert_sorted
length-insert_sorted lt k v m = ground (arith, length-insert k v m, length-place lt k v m)

-- The target that leaves is one of the map's.
abbrev Found : Option (String × ℕ) → Map ℕ → Type 0
Found none m = length m ≡ 0
Found (some f) m = is_some (get f.0 m) ≡ true

earliest-Found : (m : Map ℕ) → Found (earliest m) m
unfolding earliest get
earliest-Found [] = refl
earliest-Found (e ∷ m) = pick (earliest m) (earliest-Found m)
  where
    pick :
        (o : Option (String × ℕ))
        → Found o m
        → Found (elim o [ none ↦ some e | some f ↦ some (if leb e.1 f.1 then e else f) ]) (e ∷ m)
    pick none h = ground (arith, eq_iff e.0 e.0)
    pick (some f) h = ground (arith, eq_iff e.0 e.0, eq_iff e.0 f.0)

length-drop_target :
    (o : Option (String × ℕ)) (m : Map ℕ)
    → Found o m
    → length (drop_target o m) + 1 ≤ at_least_one (length m)
length-drop_target none m h = ground (arith, h)
length-drop_target (some f) m h = ground (arith, length-remove f.0 m, h)

pub All-insert :
    (n : ℕ) (k : String) (v : Map ℕ) (m : Map (Map ℕ))
    → length v ≤ n
    → All (Few n) m
    → All (Few n) (insert k v m)
unfolding insert
All-insert n k v [] small h = (small, tt)
All-insert n k v (e ∷ m) small h = ground (arith, All-insert n k v m small h.1, h.0)

pub All-remove : (n : ℕ) (k : String) (m : Map (Map ℕ)) → All (Few n) m → All (Few n) (remove k m)
unfolding remove
All-remove n k [] h = tt
All-remove n k (e ∷ m) h = ground (arith, All-remove n k m h.1, h.0, h.1)

-- What is stored for a subject is small.
pub get-Few :
    (n : ℕ) (k : String) (m : Map (Map ℕ)) → All (Few n) m → length (unwrap_or (get k m) []) ≤ n
unfolding get
get-Few n k [] h = omega arith
get-Few n k (e ∷ m) h = ground (arith, get-Few n k m h.1, h.0)

-- A subject's targets after an observation.
pub entry_le :
    (lt : String → String → Bool) (c : TargetConfig) (target : String) (now : ℕ) (m : Map ℕ)
    → length m ≤ max_targets c
    → length (insert_sorted lt target now (room_for_target c m target).0) ≤ max_targets c
unfolding room_for_target is_full
entry_le lt c target now m small =
    elim (Bool-cases (leb c.max_targets_per_subject (length m) && not (is_some (get target m)))) [
      | inl full ↦
          let left = drop_target (earliest m) m in
          rw (full, room_for_target, is_full)
            (ground (
              arith,
              small,
              length-insert_sorted lt target now left,
              length-drop_target (earliest m) m (earliest-Found m),
            ))
      | inr room ↦
          rw (room, room_for_target, is_full)
            (ground (arith, small, room, length-insert_sorted lt target now m))
    ]
