-- ===== src/Detection/Subjects.antt =====
-- The subjects of a tracker of daemon/crates/athar-detection/src/trackers.rs: a window for each, and
-- the list of them in the order of their last activity. Both trackers keep them in the same way.
use athar.Prelude.{
  ◌+◌, ◌≤◌, ◌≡◌, refl, ap, ◌++◌, String, Bool, true, false, ◌||◌, not, is_some, List, [], ◌∷◌,
  length, length-append, retain, All, All-append, contains, str_eq, eq_iff, arith,
}
use athar.Prelude.Maps.{
  Map, keys, get, insert, remove, is_some-get, length-insert, length-remove, contains-keys-insert,
}
use athar.Detection.Velocity.{bump}

-- No text twice.
abbrev NoRepeat : List String → Type 0
NoRepeat [] = Unit {0}
NoRepeat (s ∷ ss) = (contains ss s ≡ false) × NoRepeat ss

contains-append :
    (xs : List String) (y k : String) → contains (xs ++ y ∷ []) k ≡ (contains xs k || str_eq y k)
contains-append [] y k = ground arith
contains-append (x ∷ xs) y k = ground (arith, contains-append xs y k)

contains-retain :
    (p : String → Bool) (k : String) (ss : List String)
    → contains ss k ≡ false
    → contains (retain p ss) k ≡ false
contains-retain p k [] h = refl
contains-retain p k (s ∷ ss) h = ground (arith, contains-retain p k ss)

NoRepeat-bump : (k : String) (ss : List String) → NoRepeat ss → NoRepeat (bump k ss)
unfolding bump
NoRepeat-bump k [] h = (refl, tt)
NoRepeat-bump k (s ∷ ss) h = ground (
  arith,
  NoRepeat-bump k ss h.1,
  h.0,
  contains-retain (λ x. not (str_eq x k)) s ss,
  contains-append (retain (λ x. not (str_eq x k)) ss) k s,
  eq_iff s k,
  eq_iff k s,
)

length-retain_absent :
    (k : String) (ss : List String)
    → contains ss k ≡ false
    → length (retain (λ s. not (str_eq s k)) ss) ≡ length ss
length-retain_absent k [] h = refl
length-retain_absent k (s ∷ ss) h = ground (arith, length-retain_absent k ss)

length-retain :
    (k : String) (ss : List String)
    → NoRepeat ss
    → length ss ≤ length (retain (λ s. not (str_eq s k)) ss) + 1
length-retain k [] h = omega arith
length-retain k (s ∷ ss) h =
    ground (arith, length-retain k ss h.1, length-retain_absent k ss, h.0, eq_iff s k)

module _ {ℓ} {V : Type ℓ} where
  abbrev Known : Map V → List String → Type 0
  Known m ss = All (λ s. contains (keys m) s ≡ true) ss

  -- The list has no subject twice and only subjects with a window, and none is missing.
  pub record Tracked (m : Map V) (ss : List String) : Type 0 where
    pub no_repeat : NoRepeat ss
    pub known : Known m ss
    pub listed : length m ≤ length ss

  pub nil_Tracked : Tracked [] []
  nil_Tracked = record { no_repeat = tt; known = tt; listed = omega arith }

  contains-remove_other :
      (k j : String) (m : Map V)
      → str_eq k j ≡ false
      → contains (keys (remove k m)) j ≡ contains (keys m) j
  unfolding remove
  contains-remove_other k j [] h = refl
  contains-remove_other k j (e ∷ m) h =
      ground (arith, contains-remove_other k j m h, eq_iff e.0 k, eq_iff e.0 j, eq_iff k j)

  Known-remove :
      (k : String) (m : Map V) (ss : List String)
      → contains ss k ≡ false
      → Known m ss
      → Known (remove k m) ss
  Known-remove k m [] absent h = tt
  Known-remove k m (s ∷ ss) absent h = (
    ground (arith, contains-remove_other k s m, h.0, eq_iff s k, eq_iff k s),
    Known-remove k m ss (ground arith) h.1,
  )

  Known-insert :
      (k : String) (v : V) (m : Map V) (ss : List String) → Known m ss → Known (insert k v m) ss
  Known-insert k v m [] h = tt
  Known-insert k v m (s ∷ ss) h =
      (ground (arith, contains-keys-insert k s v m, h.0), Known-insert k v m ss h.1)

  Known-retain :
      (p : String → Bool) (m : Map V) (ss : List String) → Known m ss → Known m (retain p ss)
  Known-retain p m [] h = tt
  Known-retain p m (s ∷ ss) h = ground (arith, Known-retain p m ss h.1, h.0)

  -- A subject without a window is not listed.
  absent_of :
      (m : Map V) (k : String) (ss : List String)
      → Known m ss
      → is_some (get k m) ≡ false
      → contains ss k ≡ false
  absent_of m k [] h g = refl
  absent_of m k (s ∷ ss) h g =
      ground (arith, absent_of m k ss h.1, is_some-get k m, h.0, eq_iff s k, ap (contains (keys m)))

  -- The subject at the front has a window, which leaves with it.
  pub length-remove_front :
      (m : Map V) (s : String) (ss : List String)
      → Tracked m (s ∷ ss)
      → length m ≡ length (remove s m) + 1
  length-remove_front m s ss v = ground (arith, length-remove s m, is_some-get s m, v.known.0)

  pub remove-Tracked :
      (m : Map V) (s : String) (ss : List String) → Tracked m (s ∷ ss) → Tracked (remove s m) ss
  remove-Tracked m s ss v = record {
    no_repeat = v.no_repeat.1;
    known = Known-remove s m ss v.no_repeat.0 v.known.1;
    listed = omega (arith, length-remove_front m s ss v, v.listed);
  }

  -- A subject enters with its window, at the end of the list.
  pub insert-Tracked :
      (m : Map V) (ss : List String) (subject : String) (w : V)
      → Tracked m ss
      → Tracked (insert subject w m) (bump subject ss)
  unfolding bump
  insert-Tracked m ss subject w v = record {
    no_repeat = NoRepeat-bump subject ss v.no_repeat;
    known =
        All-append _ (retain (λ s. not (str_eq s subject)) ss) (subject ∷ [])
          (Known-insert subject w m _ (Known-retain _ m ss v.known))
          (
            ground
                (arith, contains-keys-insert subject subject w m, (eq_iff subject subject).1 refl),
            tt,
          );
    listed = ground (
      arith,
      length-insert subject w m,
      length-append (retain (λ s. not (str_eq s subject)) ss) (subject ∷ []),
      v.listed,
      length-retain subject ss v.no_repeat,
      length-retain_absent subject ss,
      absent_of m subject ss v.known,
    );
  }

  pub length-insert-le : (k : String) (w : V) (m : Map V) → length (insert k w m) ≤ length m + 1
  length-insert-le k w m = ground (arith, length-insert k w m)
