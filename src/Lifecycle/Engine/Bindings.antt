-- ===== src/Lifecycle/Engine/Bindings.antt =====
-- The outcome of `apply` beside what it stored and bound.
use athar.Prelude.{
  ℕ, String, List, [], ◌∷◌, ◌++◌, Option, none, some, true, false, ◌≡◌, refl, ◌∙◌, arith, eq_iff,
  eq_refl,
}
use athar.Event.Types.{Event}
use athar.Lifecycle.Types.{Lifecycle, LateEvent, State, Closure, is_closed, InferenceTier}
use athar.Lifecycle.Store.{LifecycleStore, StoreLaws}
use athar.Lifecycle.Correlate.{
  matched, explicit_match, business_match, causation_match, or_next, correlate,
}
use athar.Lifecycle.Transition.{classify_late_event}
use athar.Lifecycle.Valid.{IsSound}
use athar.Lifecycle.Engine.Cases.{next_of, first_of_type, apply_cases}
use athar.Lifecycle.Engine.{
  with_late_event, with_event, created_from, lifecycle_id_for, apply, ApplyOutcome, created,
  updated, late_event, unbound,
}

module _ {S F64 Json : Type 0} (store : LifecycleStore S) (s : S) (e : Event F64 Json) where
  -- The event is the last one of the lifecycle that stands under the id, in the reported state.
  pub record IsStored (after : S) (id : String) (st : State) (cl : Closure) (before : List String)
      : Type 0 where
    pub lifecycle : Lifecycle
    pub found : store.get after id ≡ some lifecycle
    pub state : lifecycle.state ≡ st
    pub closure : lifecycle.closure ≡ cl
    pub events : lifecycle.event_ids ≡ before ++ e.event_id ∷ []
    pub bound : store.find_by_event after e.event_id ≡ some id

  -- What each outcome promises of the store before and after.
  abbrev pub Truthful : S × ApplyOutcome → Type 0
  Truthful (after, created id t st cl) = IsStored after id st cl []
  Truthful (after, updated id tier st cl) =
      (old : Lifecycle) × (store.get s id ≡ some old)
      × (is_closed old.closure ≡ false)
      × IsStored after id st cl old.event_ids
  Truthful (after, late_event id tier class) =
      (old : Lifecycle) × (late : LateEvent) × (store.get s id ≡ some old)
      × (is_closed old.closure ≡ true)
      × (late.event_id ≡ e.event_id)
      × (late.class ≡ class)
      × (store.get after id ≡ some (record old { late_events = old.late_events ++ late ∷ [] }))
  Truthful (after, unbound) = after ≡ s

-- The lifecycle that the event became part of.
abbrev pub joined : ApplyOutcome → Option String
joined (created id t st cl) = some id
joined (updated id tier st cl) = some id
joined (late_event id tier class) = none
joined unbound = none

module _ {S : Type 0} (store : LifecycleStore S) (laws : StoreLaws store) where
  -- Reading back a lifecycle that was stored and then had an event bound to it.
  read_back :
      (s : S) (x : Lifecycle) (ev id : String)
      → x.id ≡ id
      → store.get (store.record_event (store.upsert s x) ev id) id ≡ some x
  read_back s x ev id same =
      laws.get-record_event _ _ _ id ∙ ground (arith, laws.get-upsert s x id, eq_iff x.id id)

  read_binding :
      (s : S) (ev id : String) → store.find_by_event (store.record_event s ev id) ev ≡ some id
  read_binding s ev id = laws.event-record_event s ev id ev ∙ rw eq_refl refl

module _ {S F64 Json : Type 0} (store : LifecycleStore S) (laws : StoreLaws store) where
  -- The outcome of `apply` is true of the stores before and after, on every branch: a created or
  -- updated lifecycle stands under the reported id in the reported state with the event as its last
  -- one, and the event is bound to it; a late event is the last late event of a closed lifecycle
  -- that is otherwise as it was; `Unbound` means that nothing changed.
  pub apply-Truthful :
      (s : S) (e : Event F64 Json) (now : ℕ)
      → IsSound store s
      → Truthful store s e (apply store s e now)
  unfolding with_event created_from with_late_event
  apply-Truthful s e now h = apply_cases store (Truthful store s e) s e now (record {
    idle = refl;
    late = λ id tier lc c g shut. (
      lc,
      record {
        event_id = e.event_id;
        event_type = e.event_type;
        arrived_at_ms = now;
        class = classify_late_event lc e.event_id e.event_type;
      },
      g,
      shut,
      refl,
      refl,
      laws.get-upsert s _ id ∙ ground (arith, h.keyed id lc g, eq_iff lc.id id),
    );
    update = λ id tier lc c g open_. (
      lc,
      g,
      open_,
      record {
        lifecycle = with_event lc e tier now (next_of lc e);
        found = read_back store laws s _ e.event_id id (h.keyed id lc g);
        state = refl;
        closure = refl;
        events = refl;
        bound = read_binding store laws _ e.event_id id;
      },
    );
    create = λ t r b c. record {
      lifecycle = created_from e t r b now (first_of_type t e);
      found = read_back store laws s _ e.event_id (lifecycle_id_for e) refl;
      state = refl;
      closure = refl;
      events = refl;
      bound = read_binding store laws _ e.event_id (lifecycle_id_for e);
    };
  })

  joined_bound :
      (s after : S) (e : Event F64 Json) (o : ApplyOutcome) {id : String}
      → Truthful store s e (after, o)
      → joined o ≡ some id
      → store.find_by_event after e.event_id ≡ some id
  joined_bound s after e (created x t st cl) h j = h.bound ∙ j
  joined_bound s after e (updated x tier st cl) h j = h.3.bound ∙ j
  joined_bound s after e (late_event x tier class) h j = cc
  joined_bound s after e unbound h j = cc

  -- Right after an event has joined a lifecycle, an event that names it as its parent, and that no
  -- explicit operation and no business id places, is correlated to the same lifecycle, by causation.
  pub correlate-apply :
      (s : S) (e child : Event F64 Json) (now : ℕ) {id : String}
      → IsSound store s
      → joined (apply store s e now).1 ≡ some id
      → child.causality.parent_event_id ≡ some e.event_id
      → explicit_match store (apply store s e now).0 child ≡ none
      → business_match store (apply store s e now).0 child ≡ none
      → correlate store (apply store s e now).0 child ≡ matched id InferenceTier.causation
  unfolding correlate causation_match or_next
  correlate-apply s e child now h j named no_op no_bid =
      let bound =
        joined_bound s (apply store s e now).0 e (apply store s e now).1 (apply-Truthful s e now h)
          j in
      rw (no_op, no_bid, named, bound) refl
