-- ===== src/Lifecycle/Engine/Closed.antt =====
-- What an event does to a closed lifecycle (MOD-27 in the specification).
use mathlib.Core.List.{append-nil}
use athar.Prelude.{
  ℕ, String, List, [], ◌++◌, none, some, true, false, ◌≡◌, ◌≢◌, refl, ap, ◌∙◌, arith, eq_iff,
  str_eq, Bool-cases, inl, inr,
}
use athar.Event.Types.{Event}
use athar.Lifecycle.Types.{Lifecycle, LateEvent, is_closed}
use athar.Lifecycle.Store.{LifecycleStore, StoreLaws}
use athar.Lifecycle.Valid.{IsSound}
use athar.Lifecycle.Engine.Cases.{apply_cases}
use athar.Lifecycle.Engine.{with_late_event, with_event, created_from, lifecycle_id_for, apply}

-- The second lifecycle is the first with more late events at the end, and nothing else changed.
abbrev pub Extends : Lifecycle → Lifecycle → Type 0
Extends old new =
    (more : List LateEvent) × (new ≡ record old { late_events = old.late_events ++ more })

Extends-refl : (lc : Lifecycle) → Extends lc lc
Extends-refl lc = ([], rw append-nil)

module _ {S : Type 0} (store : LifecycleStore S) where
  abbrev pub Kept : String → Lifecycle → S → Type 0
  Kept id lc s = (new : Lifecycle) × (store.get s id ≡ some new) × Extends lc new

module _ {S : Type 0} (store : LifecycleStore S) (laws : StoreLaws store) where
  -- A write under another id leaves the lifecycle.
  kept_elsewhere :
      (s : S) (id : String) (lc x : Lifecycle)
      → x.id ≢ id
      → store.get s id ≡ some lc
      → store.get (store.upsert s x) id ≡ some lc
  kept_elsewhere s id lc x other g = ground (arith, laws.get-upsert s x id, eq_iff x.id id)

  -- Two reads under one id find one lifecycle.
  same_lifecycle :
      (s : S) (id id' : String) (lc found : Lifecycle)
      → IsSound store s
      → store.get s id ≡ some lc
      → store.get s id' ≡ some found
      → found.id ≡ id
      → found ≡ lc
  same_lifecycle s id id' lc found h g g' same = cc (h.keyed id' found g')

  module _ {F64 Json : Type 0} (e : Event F64 Json) (now : ℕ) where
    late-Kept :
        (s : S) (id id' : String) (lc found : Lifecycle)
        → IsSound store s
        → store.get s id ≡ some lc
        → store.get s id' ≡ some found
        → Kept store id lc (store.upsert s (with_late_event found e now))
    unfolding with_late_event
    late-Kept s id id' lc found h g g' = elim (Bool-cases (str_eq found.id id)) [
      | inl same ↦
          let one = same_lifecycle s id id' lc found h g g' ((eq_iff found.id id).0 same) in
          (
            with_late_event found e now,
            laws.get-upsert s _ id ∙ rw same refl,
            (_, ap (λ x. with_late_event x e now) one),
          )
      | inr other ↦ (lc, laws.get-upsert s _ id ∙ rw other g, Extends-refl lc)
    ]

  -- Whatever arrives, a closed lifecycle keeps its state, its closure, its times and its events; at
  -- most late events are added. The event's own id must be new: no lifecycle was created from it.
  pub apply-Kept :
      {F64 Json : Type 0} (s : S) (e : Event F64 Json) (now : ℕ) (id : String) (lc : Lifecycle)
      → IsSound store s
      → store.get s (lifecycle_id_for e) ≡ none
      → store.get s id ≡ some lc
      → is_closed lc.closure ≡ true
      → Kept store id lc (apply store s e now).0
  unfolding with_event created_from
  apply-Kept s e now id lc h unused g shut =
      apply_cases store (λ r. Kept store id lc r.0) s e now
        (record {
          idle = (lc, g, Extends-refl lc);
          late = λ id' tier found c g' _. late-Kept e now s id id' lc found h g g';
          update = λ id' tier found c g' open_. (
            lc,
            laws.get-record_event _ _ _ id
                ∙ kept_elsewhere s id lc _ (λ same. open_not_closed id' found g' open_ same) g,
            Extends-refl lc,
          );
          create = λ t r b c. (
            lc,
            laws.get-record_event _ _ _ id ∙ kept_elsewhere s id lc _ (λ same. cc) g,
            Extends-refl lc,
          );
        })
    where
      open_not_closed :
          (id' : String) (found : Lifecycle)
          → store.get s id' ≡ some found
          → is_closed found.closure ≡ false
          → found.id ≡ id
          → ⊥
      open_not_closed id' found g' open_ same =
          let one = same_lifecycle s id id' lc found h g g' same in
          ground (arith, ap (λ (x : Lifecycle). is_closed x.closure) one)
