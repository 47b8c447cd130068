-- ===== src/Detection/Velocity.antt =====
-- `VelocityTracker` of daemon/crates/athar-detection/src/trackers.rs. The report of a full tracker is
-- the flag alone.
use athar.Prelude.{
  ℕ, ◌-◌, ◌%◌, ◌++◌, String, Bool, true, false, ◌&&◌, not, Option, none, some, is_some, List, [],
  ◌∷◌, length, retain, ltb, leb, str_eq, unwrap_or, u32_size, if◌then◌else◌,
}
use athar.Prelude.Maps.{Map, get, insert, remove}

pub record VelocityConfig : Type 0 where
  pub window_ms : ℕ
  pub threshold : ℕ
  pub max_subjects : ℕ

-- `VelocityConfig::default()`.
abbrev pub default_config : VelocityConfig
default_config = record { window_ms = 60_000; threshold = 10; max_subjects = 10_000 }

pub record VelocityTracker : Type 0 where
  pub config : VelocityConfig
  pub windows : Map (List ℕ)
  pub lru : List String
  pub at_capacity_reported : Bool

unfoldable pub new : VelocityConfig → VelocityTracker
new config = record { config = config; windows = []; lru = []; at_capacity_reported = false }

-- A new subject at capacity: the subject at the front of the list leaves.
unfoldable pub evict_front : VelocityTracker → List String → VelocityTracker
evict_front t [] = record t { at_capacity_reported = true }
evict_front t (s ∷ ss) = record t {
  windows = remove s t.windows;
  lru = ss;
  at_capacity_reported = true;
}

unfoldable pub make_room : VelocityTracker → String → VelocityTracker
unfolding evict_front
make_room t subject =
    if not (is_some (get subject t.windows)) && leb t.config.max_subjects (length t.windows)
    then evict_front t t.lru
    else t

-- The loop that drops samples older than the window.
unfoldable pub prune : ℕ → List ℕ → List ℕ
prune cutoff [] = []
prune cutoff (x ∷ xs) = let rest = prune cutoff xs in if ltb x cutoff then rest else x ∷ xs

-- The subject's samples after the observation.
unfoldable pub window_after : VelocityTracker → String → ℕ → List ℕ
unfolding prune
window_after t subject now_ms =
    prune (now_ms - t.config.window_ms) (unwrap_or (get subject t.windows) []) ++ now_ms ∷ []

unfoldable pub bump : String → List String → List String
bump subject lru = retain (λ s. not (str_eq s subject)) lru ++ subject ∷ []

unfoldable pub observe : VelocityTracker → String → ℕ → VelocityTracker × Option ℕ
unfolding make_room window_after bump
observe t subject now_ms =
    let t' = make_room t subject in
    let window = window_after t' subject now_ms in
    let count = length window % u32_size in
    (
      record t' { windows = insert subject window t'.windows; lru = bump subject t'.lru },
      (if ltb t.config.threshold count then some count else none),
    )
