-- ===== src/Detection/Targets.antt =====
-- `TargetTracker` of daemon/crates/athar-detection/src/trackers.rs. The `BTreeMap` of a subject's
-- targets is an association list kept in ascending order of the keys: `lt` is the order of texts, on
-- which `min_by_key` relies when times are equal.
pub mod Entries
pub mod Bounds
use athar.Prelude.{
  ℕ, ◌-◌, ◌*◌, ◌%◌, String, Bool, true, ◌&&◌, not, Option, none, some, is_some, List, [], ◌∷◌,
  length, ltb, leb, unwrap_or, u32_size, if◌then◌else◌,
}
use athar.Prelude.Maps.{Map, get, insert, remove}
use athar.Detection.Velocity.{bump}

pub record TargetConfig : Type 0 where
  pub window_ms : ℕ
  pub threshold : ℕ
  pub max_subjects : ℕ
  pub max_targets_per_subject : ℕ

-- `TargetConfig::default()`.
abbrev pub default_config : TargetConfig
default_config = record {
  window_ms = 60 * 60 * 1000;
  threshold = 5;
  max_subjects = 10_000;
  max_targets_per_subject = 1024;
}

pub record TargetTracker : Type 0 where
  pub config : TargetConfig
  pub windows : Map (Map ℕ)
  pub lru : List String
  pub subject_at_capacity_reported : Bool
  pub target_at_capacity_reported : Bool

unfoldable pub new : TargetConfig → TargetTracker
new config = record {
  config = config;
  windows = [];
  lru = [];
  subject_at_capacity_reported = Bool.false;
  target_at_capacity_reported = Bool.false;
}

unfoldable pub evict_front : TargetTracker → List String → TargetTracker
evict_front t [] = record t { subject_at_capacity_reported = true }
evict_front t (s ∷ ss) = record t {
  windows = remove s t.windows;
  lru = ss;
  subject_at_capacity_reported = true;
}

unfoldable pub make_room : TargetTracker → String → TargetTracker
unfolding evict_front
make_room t subject =
    if not (is_some (get subject t.windows)) && leb t.config.max_subjects (length t.windows)
    then evict_front t t.lru
    else t

-- `entry.retain(|_, ts| *ts >= cutoff)`.
unfoldable pub prune : ℕ → Map ℕ → Map ℕ
prune cutoff [] = []
prune cutoff (e ∷ m) = let rest = prune cutoff m in if leb cutoff e.1 then e ∷ rest else rest

-- `min_by_key`: the first entry with the least time.
unfoldable pub earliest : Map ℕ → Option (String × ℕ)
earliest [] = none
earliest (e ∷ m) = elim (earliest m) [
  | none ↦ some e
  | some f ↦ some (if leb e.1 f.1 then e else f)
]

abbrev drop_target : Option (String × ℕ) → Map ℕ → Map ℕ
drop_target none entry = entry
drop_target (some e) entry = remove e.0 entry

-- A new target at the bound on targets.
unfoldable pub is_full : TargetConfig → Map ℕ → String → Bool
is_full c entry target =
    leb c.max_targets_per_subject (length entry) && not (is_some (get target entry))

-- A new key goes in front of the first greater one.
unfoldable pub place : (String → String → Bool) → String → ℕ → Map ℕ → Map ℕ
place lt k v [] = (k, v) ∷ []
place lt k v (e ∷ m) = let rest = place lt k v m in if lt k e.0 then (k, v) ∷ e ∷ m else e ∷ rest

-- `BTreeMap::insert`.
unfoldable pub insert_sorted : (String → String → Bool) → String → ℕ → Map ℕ → Map ℕ
unfolding place
insert_sorted lt k v m = if is_some (get k m) then insert k v m else place lt k v m

-- The subject's targets before the insertion, and whether one had to leave.
unfoldable pub room_for_target : TargetConfig → Map ℕ → String → Map ℕ × Bool
unfolding earliest is_full
room_for_target c entry target =
    if is_full c entry target
    then (drop_target (earliest entry) entry, true)
    else (entry, Bool.false)

module _ (lt : String → String → Bool) where
  unfoldable pub observe : TargetTracker → String → String → ℕ → TargetTracker × Option ℕ
  unfolding make_room prune room_for_target insert_sorted bump
  observe t subject target now_ms =
      let t' = make_room t subject in
      let pruned = prune (now_ms - t.config.window_ms) (unwrap_or (get subject t'.windows) []) in
      let room = room_for_target t.config pruned target in
      let entry = insert_sorted lt target now_ms room.0 in
      let count = length entry % u32_size in
      (
        record t' {
          windows = insert subject entry t'.windows;
          lru = bump subject t'.lru;
          target_at_capacity_reported = if room.1 then true else t'.target_at_capacity_reported;
        },
        (if ltb t.config.threshold count then some count else none),
      )
