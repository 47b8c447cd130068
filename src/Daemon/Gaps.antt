-- ===== src/Daemon/Gaps.antt =====
-- The drop counters as the list of the drops that no summary has reported yet.
use athar.Prelude.{
  ℕ, ◌+◌, ◌<◌, ◌≡◌, refl, ap, ◌∙◌, ◌++◌, ◌==◌, Option, none, some, List, [], ◌∷◌, length,
  length-append, add64_fits, u64_size, if◌then◌else◌, arith,
}
use athar.Daemon.Drops.{DropCounters, CoverageGapSummary, no_drops, count_drop, take}

-- A frame that was dropped: its size, and when.
pub record Drop : Type 0 where
  pub size : ℕ
  pub at_ms : ℕ

abbrev pub total : List Drop → ℕ
total [] = 0
total (d ∷ ds) = d.size + total ds

abbrev pub started : List Drop → ℕ
started [] = 0
started (d ∷ ds) = d.at_ms

-- The counters that stand for the unreported drops.
abbrev pub view : List Drop → DropCounters
view ds = record { frames = length ds; bytes = total ds; since_ms = started ds }

-- What is reported of the unreported drops.
abbrev pub reported : List Drop → Option CoverageGapSummary
reported [] = none
reported (d ∷ ds) =
    some
      (record { frames = length (d ∷ ds); bytes = total (d ∷ ds); window_started_at_ms = d.at_ms })

pub data Call : Type 0 where
  drops : Drop → Call
  takes : Call

abbrev emit : Option CoverageGapSummary → List CoverageGapSummary → List CoverageGapSummary
emit none out = out
emit (some s) out = s ∷ out

-- The counters, and the summaries of the calls.
unfoldable pub run : DropCounters → List Call → DropCounters × List CoverageGapSummary
run c [] = (c, [])
run c (drops d ∷ calls) = run (count_drop c d.size d.at_ms) calls
run c (takes ∷ calls) = let rest = run (take c).0 calls in (rest.0, emit (take c).1 rest.1)

-- The same calls on the list.
unfoldable pub run_drops : List Drop → List Call → List Drop × List CoverageGapSummary
run_drops ds [] = (ds, [])
run_drops ds (drops d ∷ calls) = run_drops (ds ++ d ∷ []) calls
run_drops ds (takes ∷ calls) = let rest = run_drops [] calls in (rest.0, emit (reported ds) rest.1)

abbrev pub dropped : List Call → List Drop
dropped [] = []
dropped (drops d ∷ calls) = d ∷ dropped calls
dropped (takes ∷ calls) = dropped calls

total-append : (ds : List Drop) (d : Drop) → total (ds ++ d ∷ []) ≡ total ds + d.size
total-append [] d = omega arith
total-append (x ∷ xs) d = omega (arith, total-append xs d)

started-append :
    (ds : List Drop) (d : Drop)
    → started (ds ++ d ∷ []) ≡ (if length ds == 0 then d.at_ms else started ds)
started-append [] d = refl
started-append (x ∷ xs) d = ground arith

count_drop-view :
    (ds : List Drop) (d : Drop)
    → length ds + 1 < u64_size
    → total ds + d.size < u64_size
    → count_drop (view ds) d.size d.at_ms ≡ view (ds ++ d ∷ [])
unfolding count_drop
count_drop-view ds d h k = cc (
  add64_fits (length ds) 1 h,
  add64_fits (total ds) d.size k,
  length-append ds (d ∷ []),
  total-append ds d,
  started-append ds d,
)

take-view : (ds : List Drop) → take (view ds) ≡ (view [], reported ds)
unfolding take
take-view [] = refl
take-view (d ∷ ds) = ground arith

run-view :
    (ds : List Drop) (calls : List Call)
    → length ds + length (dropped calls) < u64_size
    → total ds + total (dropped calls) < u64_size
    → run (view ds) calls ≡ (view (run_drops ds calls).0, (run_drops ds calls).1)
unfolding run run_drops
run-view ds [] h k = refl
run-view ds (drops d ∷ calls) h k =
    ap (λ c. run c calls) (count_drop-view ds d (omega (arith, h)) (omega (arith, k)))
    ∙ run-view (ds ++ d ∷ []) calls (omega (arith, h, length-append ds (d ∷ [])))
        (omega (arith, k, total-append ds d))
run-view ds (takes ∷ calls) h k =
    let rest = run-view [] calls (omega (arith, h)) (omega (arith, k)) in
    ap
      (λ (r : DropCounters × Option CoverageGapSummary).
        ((run r.0 calls).0, emit r.1 (run r.0 calls).1))
      (take-view ds)
    ∙ ap (λ (r : DropCounters × List CoverageGapSummary). (r.0, emit (reported ds) r.1)) rest

-- The counters do what a list of the unreported drops would do: whatever drops and summaries follow
-- one another from the start, with less than 2 ^ 64 drops and bytes, each summary has the number, the
-- bytes and the first time of the drops since the one before, there is none when nothing was dropped,
-- and the counters are those of the drops since the last one.
pub run-no_drops :
    (calls : List Call)
    → length (dropped calls) < u64_size
    → total (dropped calls) < u64_size
    → run no_drops calls ≡ (view (run_drops [] calls).0, (run_drops [] calls).1)
run-no_drops calls h k = run-view [] calls (omega (arith, h)) (omega (arith, k))
