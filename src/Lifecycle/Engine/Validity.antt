-- ===== src/Lifecycle/Engine/Validity.antt =====
-- `apply` and the well-formedness of the lifecycles.
use athar.Prelude.{
  ℕ, String, [], ◌∷◌, Option, some, Bool, true, false, ◌≡◌, ◌⊎◌, refl, length-append, if◌then◌else◌,
  arith, eq_iff, str_eq, inl, inr,
}
use mathlib.Core.Path.{subst}
use athar.Event.Types.{Event}
use athar.Lifecycle.Types.{Lifecycle, LifecycleType, InferenceTier, is_closed, started, opened}
use athar.Lifecycle.Store.{LifecycleStore, StoreLaws}
use athar.Lifecycle.Valid.{IsValid, IsSound, unwrap_or-transition_for}
use athar.Lifecycle.Engine.Cases.{next_of, first_of_type, apply_cases}
use athar.Lifecycle.Engine.{with_late_event, with_event, created_from, lifecycle_id_for, apply}

some_if-cases {ℓ} :
    {A : Type ℓ} (b : Bool) (x : A) (o : Option A) (y : A)
    → (if b then some x else o) ≡ some y
    → (x ≡ y) ⊎ (o ≡ some y)
some_if-cases true x o y e = inl (ground arith)
some_if-cases false x o y e = inr e

module _ {S : Type 0} (store : LifecycleStore S) (laws : StoreLaws store) where
  -- To store a valid lifecycle under its id keeps the store sound.
  pub upsert-IsSound :
      (s : S) (lc : Lifecycle) → IsValid lc → IsSound store s → IsSound store (store.upsert s lc)
  upsert-IsSound s lc v h = record {
    keyed =
        λ id found e. ground (arith, laws.get-upsert s lc id, eq_iff lc.id id, h.keyed id found);
    valid =
        λ id found e. stored id found (ground (arith, laws.get-upsert s lc id, eq_iff lc.id id));
  }
    where
      stored :
          (id : String) (found : Lifecycle)
          → (if str_eq lc.id id then some lc else store.get s id) ≡ some found
          → IsValid found
      stored id found e = elim (some_if-cases (str_eq lc.id id) lc (store.get s id) found e) [
        | inl same ↦ subst IsValid same v
        | inr old ↦ h.valid id found old
      ]

  pub record_event-IsSound :
      (s : S) (ev lc : String) → IsSound store s → IsSound store (store.record_event s ev lc)
  record_event-IsSound s ev lc h = record {
    keyed = λ id found e. h.keyed id found (rw laws.get-record_event at e);
    valid = λ id found e. h.valid id found (rw laws.get-record_event at e);
  }

module _ {F64 Json : Type 0} where
  with_late_event-IsValid :
      (lc : Lifecycle) (e : Event F64 Json) (now : ℕ)
      → IsValid lc
      → IsValid (with_late_event lc e now)
  unfolding with_late_event
  with_late_event-IsValid lc e now v = record {
    consistent = v.consistent;
    closed_at = v.closed_at;
    tiers = v.tiers;
    staleness = v.staleness;
  }

  with_event-IsValid :
      (lc : Lifecycle) (e : Event F64 Json) (tier : InferenceTier) (now : ℕ)
      → is_closed lc.closure ≡ false
      → IsValid lc
      → IsValid (with_event lc e tier now (next_of lc e))
  unfolding with_event
  with_event-IsValid lc e tier now open_ v = record {
    consistent =
        unwrap_or-transition_for lc.lifecycle_type e.event_type lc.state lc.closure v.consistent;
    closed_at = ground (arith, v.closed_at);
    tiers = omega (
      arith,
      v.tiers,
      length-append lc.tiers (tier ∷ []),
      length-append lc.event_ids (e.event_id ∷ []),
    );
    staleness = v.staleness;
  }

  created_from-IsValid :
      (e : Event F64 Json) (t : LifecycleType) (r b : Option String) (now : ℕ)
      → IsValid (created_from e t r b now (first_of_type t e))
  unfolding created_from
  created_from-IsValid e t r b now = record {
    consistent = unwrap_or-transition_for t e.event_type started opened refl;
    closed_at = ground arith;
    tiers = refl;
    staleness = refl;
  }

module _ {S F64 Json : Type 0} (store : LifecycleStore S) (laws : StoreLaws store) where
  -- Whatever the event, `apply` keeps the store sound: every lifecycle stands under its own id, is
  -- closed in a terminal state or open in a live one, has a closing time exactly when it is closed,
  -- and has one tier for each event.
  pub apply-IsSound :
      (s : S) (e : Event F64 Json) (now : ℕ)
      → IsSound store s
      → IsSound store (apply store s e now).0
  apply-IsSound s e now h =
      apply_cases store (λ r. IsSound store r.0) s e now
        (record {
          idle = h;
          late = λ id tier lc c g shut.
              upsert-IsSound store laws s _ (with_late_event-IsValid lc e now (h.valid id lc g)) h;
          update = λ id tier lc c g open_. record_event-IsSound store laws _ e.event_id id (
              upsert-IsSound store laws s _
                (with_event-IsValid lc e tier now open_ (h.valid id lc g)) h);
          create = λ t r b c.
              record_event-IsSound store laws _ e.event_id (lifecycle_id_for e)
                (upsert-IsSound store laws s _ (created_from-IsValid e t r b now) h);
        })
