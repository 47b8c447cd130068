-- ===== src/Lifecycle/Engine/Cases.antt =====
-- One rule for all branches of `apply`: what holds of the result of each branch holds of the call.
use athar.Prelude.{
  ℕ, String, Option, none, some, true, false, ◌≡◌, refl, inl, inr, Bool-cases, unwrap_or,
}
use athar.Event.Types.{Event}
use athar.Lifecycle.Types.{
  LifecycleType, State, Closure, started, opened, is_closed, InferenceTier, Lifecycle,
}
use athar.Lifecycle.Store.{LifecycleStore}
use athar.Lifecycle.Transition.{transition_for, classify_late_event}
use athar.Lifecycle.Correlate.{Corr, matched, fresh, nothing, correlate}
use athar.Lifecycle.Engine.{
  ApplyOutcome, updated, late_event, created, unbound, with_late_event, with_event, created_from,
  lifecycle_id_for, apply_match, apply_new, apply_corr, apply,
}

-- The state and closure after an event.
abbrev pub next_of : {F64 Json : Type 0} → Lifecycle → Event F64 Json → State × Closure
next_of lc e = unwrap_or (transition_for lc.lifecycle_type e.event_type) (lc.state, lc.closure)

abbrev pub first_of_type : {F64 Json : Type 0} → LifecycleType → Event F64 Json → State × Closure
first_of_type t e = unwrap_or (transition_for t e.event_type) (started, opened)

module _ {ℓ} {S F64 Json : Type 0} (store : LifecycleStore S) (P : S × ApplyOutcome → Type ℓ)
    (s : S) (e : Event F64 Json) (now : ℕ) where
  -- What each branch has to show.
  pub record Branches : Type ℓ where
    pub idle : P (s, unbound)
    pub late :
        (id : String) (tier : InferenceTier) (lc : Lifecycle)
        → correlate store s e ≡ matched id tier
        → store.get s id ≡ some lc
        → is_closed lc.closure ≡ true
        → P (
          store.upsert s (with_late_event lc e now),
          late_event id tier (classify_late_event lc e.event_id e.event_type),
        )
    pub update :
        (id : String) (tier : InferenceTier) (lc : Lifecycle)
        → correlate store s e ≡ matched id tier
        → store.get s id ≡ some lc
        → is_closed lc.closure ≡ false
        → P (
          store.record_event
              (store.upsert s (with_event lc e tier now (next_of lc e)))
              e.event_id
              id,
          updated id tier (next_of lc e).0 (next_of lc e).1,
        )
    pub create :
        (t : LifecycleType) (r b : Option String)
        → correlate store s e ≡ fresh t r b
        → P (
          store.record_event
              (store.upsert s (created_from e t r b now (first_of_type t e)))
              e.event_id
              (lifecycle_id_for e),
          created (lifecycle_id_for e) t (first_of_type t e).0 (first_of_type t e).1,
        )

  match_cases :
      (id : String) (tier : InferenceTier) (found : Option Lifecycle)
      → Branches
      → correlate store s e ≡ matched id tier
      → store.get s id ≡ found
      → P (apply_match store s e now id tier found)
  unfolding apply_match
  match_cases id tier none h c g = h.idle
  match_cases id tier (some lc) h c g = elim (Bool-cases (is_closed lc.closure)) [
    | inl shut ↦ rw (shut, apply_match) (h.late id tier lc c g shut)
    | inr open_ ↦ rw (open_, apply_match) (h.update id tier lc c g open_)
  ]

  corr_cases : (c : Corr) → Branches → correlate store s e ≡ c → P (apply_corr store s e now c)
  unfolding apply_corr apply_new
  corr_cases (matched id tier) h c = match_cases id tier (store.get s id) h c refl
  corr_cases (fresh t r b) h c = h.create t r b c
  corr_cases nothing h c = h.idle

  pub apply_cases : Branches → P (apply store s e now)
  unfolding apply
  apply_cases h = corr_cases (correlate store s e) h refl
