-- ===== src/Lifecycle/History.antt =====
-- Histories: any sequence of events and sweeps on the in-memory store. (`record_event` and `upsert`
-- are called by the engine and the scanner only.)
use athar.Prelude.{ℕ, List, [], ◌∷◌, inl, inr, Bool-cases}
use athar.Prelude.Maps.{get}
use athar.Event.Types.{Event}
use athar.Lifecycle.Types.{Lifecycle}
use athar.Lifecycle.Valid.{IsSound}
use athar.Lifecycle.InMemory.{InMemoryStore, in_memory, new, upsert}
use athar.Lifecycle.InMemory.Laws.{in_memory-laws}
use athar.Lifecycle.InMemory.Listing.{IsKept, upsert-IsKept, record_event-IsKept, IsKept-ListsOpen}
use athar.Lifecycle.Engine.{apply}
use athar.Lifecycle.Engine.Cases.{apply_cases}
use athar.Lifecycle.Engine.Validity.{apply-IsSound}
use athar.Lifecycle.Scanner.{sweep, sweep_from, is_stale, expire}
use athar.Lifecycle.Scanner.Soundness.{sweep-IsSound}

pub data Call (F64 Json : Type 0) : Type 0 where
  applies : Event F64 Json → ℕ → Call F64 Json
  sweeps : ℕ → Call F64 Json

module _ {F64 Json : Type 0} where
  unfoldable pub step : InMemoryStore → Call F64 Json → InMemoryStore
  step s (applies e now) = (apply in_memory s e now).0
  step s (sweeps now) = (sweep in_memory s now).0

  unfoldable pub run : InMemoryStore → List (Call F64 Json) → InMemoryStore
  unfolding step
  run s [] = s
  run s (c ∷ cs) = run (step s c) cs

pub record IsGood (s : InMemoryStore) : Type 0 where
  pub sound : IsSound in_memory s
  pub kept : IsKept s

new-IsGood : IsGood new
unfolding get
new-IsGood = record {
  sound = record { keyed = λ id lc e. cc; valid = λ id lc e. cc };
  kept = record { distinct = tt; keyed = tt };
}

sweep_from-IsKept :
    (s : InMemoryStore) (now : ℕ) (lcs : List Lifecycle)
    → IsKept s
    → IsKept (sweep_from in_memory s now lcs).0
unfolding sweep_from
sweep_from-IsKept s now [] k = k
sweep_from-IsKept s now (x ∷ xs) k = elim (Bool-cases (is_stale now x)) [
  | inl stale ↦
      rw (stale, sweep_from)
        (sweep_from-IsKept (upsert s (expire now x)) now xs (upsert-IsKept s (expire now x) k))
  | inr fresh ↦ rw (fresh, sweep_from) (sweep_from-IsKept s now xs k)
]

module _ {F64 Json : Type 0} where
  apply-IsKept :
      (s : InMemoryStore) (e : Event F64 Json) (now : ℕ)
      → IsKept s
      → IsKept (apply in_memory s e now).0
  apply-IsKept s e now k =
      apply_cases in_memory (λ r. IsKept r.0) s e now
        (record {
          idle = k;
          late = λ id tier lc c g shut. upsert-IsKept s _ k;
          update = λ id tier lc c g open_. record_event-IsKept _ _ _ (upsert-IsKept s _ k);
          create = λ t r b c. record_event-IsKept _ _ _ (upsert-IsKept s _ k);
        })

  step-IsGood : (s : InMemoryStore) (c : Call F64 Json) → IsGood s → IsGood (step s c)
  unfolding step sweep
  step-IsGood s (applies e now) g = record {
    sound = apply-IsSound in_memory in_memory-laws s e now g.sound;
    kept = apply-IsKept s e now g.kept;
  }
  step-IsGood s (sweeps now) g = record {
    sound = sweep-IsSound in_memory in_memory-laws s now (IsKept-ListsOpen s g.kept) g.sound;
    kept = sweep_from-IsKept s now (in_memory.all_open s) g.kept;
  }

  run-IsGood : (s : InMemoryStore) (cs : List (Call F64 Json)) → IsGood s → IsGood (run s cs)
  unfolding run
  run-IsGood s [] g = g
  run-IsGood s (c ∷ cs) g = run-IsGood (step s c) cs (step-IsGood s c g)

  -- After any history of events and sweeps from the empty store, every lifecycle stands under its
  -- own id and is well-formed, and the store has one entry to an id.
  pub run-new-IsGood : (cs : List (Call F64 Json)) → IsGood (run new cs)
  run-new-IsGood cs = run-IsGood new cs new-IsGood
