-- ===== src/Detection/Capacity.antt =====
-- The bound on the subjects of a velocity tracker.
use athar.Prelude.{
  ℕ, ◌+◌, ◌≤◌, ◌≡◌, refl, ap, ◌∙◌, String, ◌&&◌, not, is_some, List, [], ◌∷◌, length, leb,
  if◌then◌else◌, arith, Bool-cases, inl, inr,
}
use mathlib.Core.Path.{subst}
use athar.Prelude.Maps.{get, length-insert}
use athar.Detection.Velocity.{
  VelocityConfig, VelocityTracker, new, evict_front, make_room, window_after, observe,
}
use athar.Detection.Subjects.{
  Tracked, nil_Tracked, length-remove_front, remove-Tracked, insert-Tracked, length-insert-le,
}

abbrev Inv : VelocityTracker → Type 0
Inv t = Tracked t.windows t.lru

-- At least one subject is tracked, whatever the configuration.
abbrev pub capacity : VelocityConfig → ℕ
capacity c = if leb c.max_subjects 1 then 1 else c.max_subjects

Bounded : VelocityTracker → Type 0
Bounded t = length t.windows ≤ capacity t.config

evict_front-Inv :
    (t : VelocityTracker) (ss : List String) → t.lru ≡ ss → Inv t → Inv (evict_front t ss)
unfolding evict_front
evict_front-Inv t [] e v = v
evict_front-Inv t (s ∷ ss) e v = remove-Tracked t.windows s ss (subst (Tracked t.windows) e v)

-- An eviction makes room.
evict_front-length :
    (t : VelocityTracker) (ss : List String)
    → t.lru ≡ ss
    → Inv t
    → Bounded t
    → length (evict_front t ss).windows + 1 ≤ capacity t.config
unfolding evict_front Bounded
evict_front-length t [] e v b = ground (arith, v.listed, ap length e)
evict_front-length t (s ∷ ss) e v b =
    omega (arith, b, length-remove_front t.windows s ss (subst (Tracked t.windows) e v))

observe-Inv :
    (t : VelocityTracker) (subject : String) (now : ℕ) → Inv t → Inv (observe t subject now).0
unfolding observe make_room
observe-Inv t subject now v =
    elim (Bool-cases
      (not (is_some (get subject t.windows)) && leb t.config.max_subjects (length t.windows))) [
        | inl full ↦
            let t' = evict_front t t.lru in
            rw (full, observe, make_room)
              (insert-Tracked t'.windows t'.lru subject _ (evict_front-Inv t t.lru refl v))
        | inr room ↦ rw (room, observe, make_room) (insert-Tracked t.windows t.lru subject _ v)
      ]

config-evict_front : (t : VelocityTracker) (ss : List String) → (evict_front t ss).config ≡ t.config
unfolding evict_front
config-evict_front t [] = refl
config-evict_front t (s ∷ ss) = refl

observe-Bounded :
    (t : VelocityTracker) (subject : String) (now : ℕ)
    → Inv t
    → Bounded t
    → Bounded (observe t subject now).0
unfolding observe make_room Bounded
observe-Bounded t subject now v b =
    elim (Bool-cases
      (not (is_some (get subject t.windows)) && leb t.config.max_subjects (length t.windows))) [
        | inl full ↦
            rw (full, observe, make_room)
              (omega (
                arith,
                length-insert-le subject (window_after (evict_front t t.lru) subject now)
                    (evict_front t t.lru).windows,
                evict_front-length t t.lru refl v b,
                ap capacity (config-evict_front t t.lru),
              ))
        | inr room ↦
            rw (room, observe, make_room)
              (ground (arith, b, length-insert subject (window_after t subject now) t.windows))
      ]

pub data Call : Type 0 where
  observes : String → ℕ → Call

unfoldable pub run : VelocityTracker → List Call → VelocityTracker
run t [] = t
run t (observes subject now ∷ calls) = run (observe t subject now).0 calls

run-Bounded : (t : VelocityTracker) (calls : List Call) → Inv t → Bounded t → Bounded (run t calls)
unfolding run
run-Bounded t [] v b = b
run-Bounded t (observes subject now ∷ calls) v b =
    run-Bounded (observe t subject now).0 calls (observe-Inv t subject now v)
      (observe-Bounded t subject now v b)

config-observe :
    (t : VelocityTracker) (subject : String) (now : ℕ) → (observe t subject now).0.config ≡ t.config
unfolding observe make_room
config-observe t subject now = ground (arith, config-evict_front t t.lru)

config-run : (t : VelocityTracker) (calls : List Call) → (run t calls).config ≡ t.config
unfolding run
config-run t [] = refl
config-run t (observes subject now ∷ calls) =
    config-run (observe t subject now).0 calls ∙ config-observe t subject now

-- After any observations, a tracker holds at most as many subjects as its configuration allows, and
-- at most one if that allows none.
pub run-new_le :
    (c : VelocityConfig) (calls : List Call) → length (run (new c) calls).windows ≤ capacity c
unfolding Bounded new
run-new_le c calls = omega (
  arith,
  run-Bounded (new c) calls nil_Tracked (ground arith),
  ap capacity (config-run (new c) calls),
)
