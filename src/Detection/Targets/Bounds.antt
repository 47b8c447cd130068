-- ===== src/Detection/Targets/Bounds.antt =====
-- The bounds on the subjects of a target tracker and on the targets of each.
use athar.Prelude.{
  ℕ, ◌+◌, ◌-◌, ◌≤◌, ◌≡◌, refl, ap, ◌∙◌, String, Bool, true, ◌&&◌, not, is_some, List, [], ◌∷◌,
  length, All, leb, unwrap_or, arith, Bool-cases, ◌⊎◌, inl, inr,
}
use mathlib.Core.Path.{subst}
use athar.Prelude.Maps.{get, length-insert}
use athar.Detection.Subjects.{
  Tracked, nil_Tracked, length-remove_front, remove-Tracked, insert-Tracked,
}
use athar.Detection.Targets.{
  TargetConfig, TargetTracker, new, evict_front, make_room, prune, room_for_target, insert_sorted,
  observe,
}
use athar.Detection.Targets.Entries.{
  max_subjects, max_targets, Few, length-prune, All-insert, All-remove, get-Few, entry_le,
}

record Inv (t : TargetTracker) : Type 0 where
  tracked : Tracked t.windows t.lru
  subjects : length t.windows ≤ max_subjects t.config
  targets : All (Few (max_targets t.config)) t.windows

new-Inv : (c : TargetConfig) → Inv (new c)
unfolding new
new-Inv c = record { tracked = nil_Tracked; subjects = ground arith; targets = tt }

evict_front-Inv :
    (t : TargetTracker) (ss : List String) → t.lru ≡ ss → Inv t → Inv (evict_front t ss)
unfolding evict_front
evict_front-Inv t [] e v = record {
  tracked = v.tracked;
  subjects = v.subjects;
  targets = v.targets;
}
evict_front-Inv t (s ∷ ss) e v =
    let k = subst (Tracked t.windows) e v.tracked in
    record {
      tracked = remove-Tracked t.windows s ss k;
      subjects = omega (arith, v.subjects, length-remove_front t.windows s ss k);
      targets = All-remove (max_targets t.config) s t.windows v.targets;
    }

-- An eviction makes room.
evict_front-length :
    (t : TargetTracker) (ss : List String)
    → t.lru ≡ ss
    → Inv t
    → length (evict_front t ss).windows + 1 ≤ max_subjects t.config
unfolding evict_front
evict_front-length t [] e v = ground (arith, v.tracked.listed, ap length e)
evict_front-length t (s ∷ ss) e v =
    omega (
      arith,
      v.subjects,
      length-remove_front t.windows s ss (subst (Tracked t.windows) e v.tracked),
    )

config-evict_front : (t : TargetTracker) (ss : List String) → (evict_front t ss).config ≡ t.config
unfolding evict_front
config-evict_front t [] = refl
config-evict_front t (s ∷ ss) = refl

-- What `make_room` leaves: the same configuration, and room for a subject that is new.
record Roomy (t u : TargetTracker) (subject : String) : Type 0 where
  inv : Inv u
  same : u.config ≡ t.config
  room : (is_some (get subject u.windows) ≡ true) ⊎ (length u.windows + 1 ≤ max_subjects t.config)

make_room-Roomy :
    (t : TargetTracker) (subject : String) → Inv t → Roomy t (make_room t subject) subject
unfolding make_room
make_room-Roomy t subject v =
    elim (Bool-cases
      (not (is_some (get subject t.windows)) && leb t.config.max_subjects (length t.windows))) [
        | inl full ↦
            rw (full, make_room)
              (record {
                inv = evict_front-Inv t t.lru refl v;
                same = config-evict_front t t.lru;
                room = inr (evict_front-length t t.lru refl v);
              })
        | inr room ↦
            rw (room, make_room) (record { inv = v; same = refl; room = ground (arith, room) })
      ]

pub record Seen : Type 0 where
  pub subject : String
  pub target : String
  pub now_ms : ℕ

module _ (lt : String → String → Bool) where
  observe-Inv :
      (t : TargetTracker) (subject target : String) (now : ℕ)
      → Inv t
      → Inv (observe lt t subject target now).0
  unfolding observe
  observe-Inv t subject target now v =
      let u = make_room t subject in
      let r = make_room-Roomy t subject v in
      let old = unwrap_or (get subject u.windows) [] in
      let pruned = prune (now - t.config.window_ms) old in
      let entry = insert_sorted lt target now (room_for_target t.config pruned target).0 in
      let fits : length pruned ≤ max_targets t.config = omega (
        arith,
        length-prune (now - t.config.window_ms) old,
        get-Few (max_targets u.config) subject u.windows r.inv.targets,
        ap max_targets r.same,
      ) in
      let small = entry_le lt t.config target now pruned fits in
      record {
        tracked = insert-Tracked u.windows u.lru subject entry r.inv.tracked;
        subjects = ground (
          arith,
          r.room,
          r.inv.subjects,
          ap max_subjects r.same,
          length-insert subject entry u.windows,
        );
        targets =
            All-insert (max_targets u.config) subject entry u.windows
              (omega (arith, small, ap max_targets r.same)) r.inv.targets;
      }

  config-observe :
      (t : TargetTracker) (subject target : String) (now : ℕ)
      → (observe lt t subject target now).0.config ≡ t.config
  unfolding observe make_room
  config-observe t subject target now = ground (arith, config-evict_front t t.lru)

  unfoldable pub run : TargetTracker → List Seen → TargetTracker
  unfolding observe
  run t [] = t
  run t (x ∷ xs) = run (observe lt t x.subject x.target x.now_ms).0 xs

  run-Inv : (t : TargetTracker) (xs : List Seen) → Inv t → Inv (run t xs)
  unfolding run
  run-Inv t [] v = v
  run-Inv t (x ∷ xs) v =
      run-Inv (observe lt t x.subject x.target x.now_ms).0 xs
        (observe-Inv t x.subject x.target x.now_ms v)

  config-run : (t : TargetTracker) (xs : List Seen) → (run t xs).config ≡ t.config
  unfolding run
  config-run t [] = refl
  config-run t (x ∷ xs) =
      config-run (observe lt t x.subject x.target x.now_ms).0 xs
      ∙ config-observe t x.subject x.target x.now_ms

  -- After any observations, a tracker holds at most as many subjects as its configuration allows, and
  -- for each of them at most as many targets as it allows; at most one where it allows none.
  pub run-new_bounds :
      (c : TargetConfig) (xs : List Seen)
      → (length (run (new c) xs).windows ≤ max_subjects c)
        × All (Few (max_targets c)) (run (new c) xs).windows
  unfolding new
  run-new_bounds c xs =
      let v = run-Inv (new c) xs (new-Inv c) in
      let same = config-run (new c) xs in
      (
        omega (arith, v.subjects, ap max_subjects same),
        subst (λ n. All (Few n) (run (new c) xs).windows) (ap max_targets same) v.targets,
      )
